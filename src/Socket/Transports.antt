-- ===== src/Socket/Transports.antt =====
-- src/server/ws.rs and src/server/protocol.rs: a web socket and a TCP connection carry the same
-- messages.
use sternhamla_server.Prelude.{
  ◌≡◌, refl, sym, ◌∙◌, ap, ◌⊎◌, inl, inr, none, List, [], ◌∷◌, ◌++◌, map, ok, map_err, append-nil,
}
use sternhamla_server.Messages.{RemoteOutMessage, RemoteInMessage}
use sternhamla_server.Codec.{
  Bytes, Cbor, IsCbor, Framing, IsFraming, CodecError, from_bytes, encode_message, server_decode,
  server_encode, client_encode,
}
use sternhamla_server.Codec.Stream.{
  encode_all, Reader, Reads, payload_written, same_look, nothing_there, client_to_server,
}
use sternhamla_server.Handshake.{Surroundings}
use sternhamla_server.Socket.{
  Message, binary, SocketError, read_message, write_message, next_item, shake, handle_ws,
  handle_tcp,
}

-- What CBOR writes of each message.
abbrev pub Serialized : {M : Type 0} → Cbor M → List M → List Bytes → Type 0
Serialized c [] bs = bs ≡ []
Serialized c (m ∷ ms) bs =
    (b : Bytes) × (rest : List Bytes) × (c.into_writer m ≡ ok b)
    × (bs ≡ b ∷ rest)
    × Serialized c ms rest

abbrev pub binaries : {E : Type 0} → List Bytes → List (E ⊎ Message)
binaries bs = map (λ b. inr (binary b)) bs

module _ {E Uuid : Type 0} (incoming : Cbor (RemoteInMessage Uuid)) (cbor : IsCbor incoming) where
  read_binaries :
      (ms : List (RemoteInMessage Uuid)) (bs : List Bytes)
      → Serialized incoming ms bs
      → map (read_message {E = E} incoming) (binaries bs) ≡ map ok ms
  unfolding read_message from_bytes
  read_binaries [] bs e = rw e refl
  read_binaries (m ∷ ms) bs (b, rest, wrote, e, later) =
      rw (e, cbor.reads m b wrote, read_binaries ms rest later) refl

shake_same :
    (E E' F : Type 0) {Uuid Sender : Type 0} (w : Surroundings Uuid Sender)
    (ms : List (RemoteInMessage Uuid))
    → shake {E = E} {F = F} w (map ok ms) ≡ shake {E = E'} {F = F} w (map ok ms)
unfolding shake next_item
shake_same E E' F w [] = refl
shake_same E E' F w (m ∷ ms) = refl

map_err-ok :
    (E : Type 0) {A : Type 0} (ms : List A) → map (map_err (λ (x : E). x)) (map ok ms) ≡ map ok ms
map_err-ok E [] = refl
map_err-ok E (m ∷ ms) = ap (λ l. ok m ∷ l) (map_err-ok E ms)

module _ {F Uuid : Type 0} (d : Framing F) (incoming : Cbor (RemoteInMessage Uuid))
    (outgoing : Cbor (RemoteOutMessage Uuid)) (frame : Bytes → Bytes) (pending : F → Bytes)
    (framing : IsFraming d frame pending) where
  -- Let a client send some messages over TCP, encoded with `ClientCodec`, and let another send
  -- the same messages as binary messages of a web socket, each serialized to CBOR. When all bytes
  -- have arrived over TCP and `ServerCodec` finds nothing more, it has handed out these messages,
  -- the web socket's stream has the same items, and the handshakes do the same. The framing keeps
  -- the contract of a length-delimited codec, and what CBOR writes of a message, it reads again.
  pub handle_ws-handle_tcp :
      {E G Sender : Type 0}
      → IsCbor incoming
      → (ms : List (RemoteInMessage Uuid)) (bs : List Bytes) (w : Bytes)
        (r : Reader F (RemoteInMessage Uuid)) (g : F) (left : Bytes)
      → Serialized incoming ms bs
      → encode_all (client_encode d incoming outgoing) d.new ms [] ≡ ok w
      → Reads d.new (server_decode d incoming outgoing) w r
      → server_decode d incoming outgoing r.codec r.buffer ≡ (g, left, ok none)
      → (around : Surroundings Uuid Sender)
      → (r.items ≡ ms)
        × (map (read_message {E = E} incoming) (binaries bs) ≡ map ok ms)
        × (handle_ws {E = E} {F = G} incoming around (binaries bs)
            ≡ handle_tcp around (map ok r.items))
  unfolding handle_ws handle_tcp
  handle_ws-handle_tcp {E = E} {G = G} cbor ms bs w r g left serialized sent reads over around =
      let (later, split, x) =
        client_to_server d incoming outgoing frame pending framing cbor ms w w [] r sent
          (sym (append-nil w)) reads in
      let items : r.items ≡ ms = elim x [
        | inl (m, ms', g', left', shape, e) ↦
            absurd (nothing_there (ok none) (same_look _ over e).2 refl)
        | inr (g', left', e, all) ↦
            sym (split ∙ ap (λ l. r.items ++ l) (all refl) ∙ append-nil r.items)
      ] in
      (
        items,
        read_binaries incoming cbor ms bs serialized,
        rw
            (
              read_binaries {E = E} incoming cbor ms bs serialized,
              map_err-ok CodecError r.items,
              items,
            )
            (shake_same (SocketError E) CodecError G around ms),
      )

  -- When `ServerCodec` encodes a message, it writes the frame of some bytes; the web socket sends
  -- the same bytes as one binary message, and CBOR reads the message from them. The framing keeps
  -- the contract of a length-delimited codec, and what CBOR writes of a message, it reads again.
  pub write_message-frame :
      {E : Type 0}
      → IsCbor outgoing
      → (f : F) (m : RemoteOutMessage Uuid) (dst dst' : Bytes)
      → (server_encode d incoming outgoing f m dst).1 ≡ ok dst'
      → (b : Bytes) × (dst' ≡ dst ++ frame b)
        × (write_message {E = E} outgoing m ≡ ok (binary b))
        × (outgoing.from_reader b ≡ ok m)
  unfolding server_encode write_message encode_message
  write_message-frame cbor f m dst dst' e =
      let (b, wrote, framed) = payload_written d outgoing f dst dst' (outgoing.into_writer m) e in
      (b, framing.writes f b dst dst' framed, rw wrote refl, cbor.reads m b wrote)
