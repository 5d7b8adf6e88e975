-- ===== src/Codec/Stream.antt =====
-- src/server/protocol.rs: a stream of messages through an encoder and a decoder, in any chunks.
use sternhamla_server.Prelude.{
  ℕ, ◌≡◌, ◌≢◌, refl, sym, ◌∙◌, ap, ◌⊎◌, inl, inr, Option, none, some, List, [], ◌∷◌, ◌++◌, Exec, ok,
  err, panic, undefined, stuck, ◌>>=◌, >>=-eq-ok, append_assoc, append-nil, map_err-eq-ok,
}
use sternhamla_server.Codec.{
  Bytes, Cbor, IsCbor, Framing, IsFraming, CodecError, deserialized, decode_message, frame_payload,
  encode_message, server_decode, server_encode, client_decode, client_encode,
}
use sternhamla_server.Messages.{RemoteOutMessage, RemoteInMessage}

cons_inj : {x y : ℕ} {xs ys : Bytes} → x ∷ xs ≡ y ∷ ys → (x ≡ y) × (xs ≡ ys)
cons_inj e = (cc, cc)

-- Of two ways to cut a sequence, one cuts first.
append-split :
    (x y a b : Bytes)
    → x ++ y ≡ a ++ b
    → ((t : Bytes) × (x ≡ a ++ t) × (b ≡ t ++ y))
      ⊎ ((t : Bytes) × (x ++ t ≡ a) × (t ≢ []) × (y ≡ t ++ b))
append-split x y [] b e = inl (x, refl, sym e)
append-split [] y (i ∷ a) b e = inr (i ∷ a, refl, (λ n. cc), e)
append-split (j ∷ x) y (i ∷ a) b e =
    let (same, e') = cons_inj e in
    elim (append-split x y a b e') [
      | inl (t, p, q) ↦ inl (t, rw (same, p) refl, q)
      | inr (t, p, nonempty, q) ↦ inr (t, rw (same, p) refl, nonempty, q)
    ]

ok_inj : {x y : Bytes} → (r : Exec CodecError Bytes) → r ≡ ok x → r ≡ ok y → x ≡ y
ok_inj r h g = cc

both-nil : (x y : Bytes) → x ++ y ≡ [] → (x ≡ []) × (y ≡ [])
both-nil [] y e = (refl, e)
both-nil (i ∷ x) y e = absurd (cc)

module _ {F M : Type 0} where
  pub same_look :
      {g g' : F} {left left' : Bytes} {r r' : Exec CodecError (Option M)}
      (t : F × Bytes × Exec CodecError (Option M))
      → t ≡ (g, left, r)
      → t ≡ (g', left', r')
      → (g ≡ g') × (left ≡ left') × (r ≡ r')
  same_look t h h' = let e = sym h ∙ h' in (ap (λ x. x.0) e, ap (λ x. x.1) e, ap (λ x. x.2) e)

module _ {M : Type 0} where
  pub nothing_there : {m : M} (r : Exec CodecError (Option M)) → r ≡ ok (some m) → r ≡ ok none → ⊥
  nothing_there r h g = cc

  something_there :
      {m m' : M} (r : Exec CodecError (Option M)) → r ≡ ok (some m) → r ≡ ok (some m') → m ≡ m'
  something_there r h g = cc

-- A stream into which `encode` writes.
module _ {F M : Type 0} (encode : F → M → Bytes → F × Exec CodecError Bytes) where
  -- One message after the other, to the same buffer.
  unfoldable pub encode_all : F → List M → Bytes → Exec CodecError Bytes
  encode_all f [] dst = ok dst
  encode_all f (m ∷ ms) dst =
      let (g, written) = encode f m dst in written >>= λ dst'. encode_all g ms dst'

-- The reading end: the state of the codec, its buffer, and the messages that it has handed out.
pub record Reader (F M : Type 0) : Type 0 where
  pub codec : F
  pub buffer : Bytes
  pub items : List M

module _ {F M : Type 0} (new : F)
    (decode : F → Bytes → F × Bytes × Exec CodecError (Option M)) where
  -- What has arrived, in chunks of any size, and the reader after it has looked at its buffer any
  -- number of times.
  pub data Reads : Bytes → Reader F M → Type 0 where
    start : Reads [] (record { codec = new; buffer = []; items = [] })
    arrive :
        (got chunk : Bytes) (r : Reader F M)
        → Reads got r
        → Reads (got ++ chunk) (record r { buffer = r.buffer ++ chunk })
    wait :
        (got left : Bytes) (r : Reader F M) (g : F)
        → Reads got r
        → decode r.codec r.buffer ≡ (g, left, ok none)
        → Reads got (record r { codec = g; buffer = left })
    item :
        (got left : Bytes) (r : Reader F M) (g : F) (m : M)
        → Reads got r
        → decode r.codec r.buffer ≡ (g, left, ok (some m))
        → Reads got (record { codec = g; buffer = left; items = r.items ++ m ∷ [] })

  -- The reader has handed out the first of the messages, in order. When it looks at its buffer, it
  -- gets the next one, or nothing yet; nothing, only when bytes are still to come or all messages
  -- have been handed out.
  abbrev pub InOrder : List M → Bytes → Reader F M → Type 0
  InOrder ms rest r =
      (later : List M) × (ms ≡ r.items ++ later)
      × (((m : M) × (ms' : List M) × (g : F) × (left : Bytes) × (later ≡ m ∷ ms')
            × (decode r.codec r.buffer ≡ (g, left, ok (some m))))
          ⊎ ((g : F) × (left : Bytes) × (decode r.codec r.buffer ≡ (g, left, ok none))
              × (rest ≡ [] → later ≡ [])))

module _ {F M : Type 0} (d : Framing F) (c : Cbor M) where
  -- What a buffer that was written shows.
  pub payload_written :
      (f : F) (dst dst' : Bytes) (r : Exec (Unit {0}) Bytes)
      → (frame_payload d c f dst r).1 ≡ ok dst'
      → (b : Bytes) × (r ≡ ok b) × ((d.encode f b dst).1 ≡ ok dst')
  unfolding frame_payload
  payload_written f dst dst' (ok b) e = (b, refl, map_err-eq-ok _ _ dst' e)
  payload_written f dst dst' (err x) e = absurd (cc)
  payload_written f dst dst' panic e = absurd (cc)
  payload_written f dst dst' undefined e = absurd (cc)
  payload_written f dst dst' stuck e = absurd (cc)

  module _ (frame : Bytes → Bytes) (pending : F → Bytes) (framing : IsFraming d frame pending)
      (cbor : IsCbor c) where
    -- The bytes of the messages.
    abbrev Wire : List M → Bytes → Type 0
    Wire [] w = w ≡ []
    Wire (m ∷ ms) w =
        (b rest : Bytes) × (c.into_writer m ≡ ok b)
        × ((f : F) × (dst dst' : Bytes) × ((d.encode f b dst).1 ≡ ok dst'))
        × (w ≡ frame b ++ rest)
        × Wire ms rest

    encode_all-Wire :
        (ms : List M) (f : F) (dst w : Bytes)
        → encode_all (encode_message d c) f ms dst ≡ ok w
        → (w' : Bytes) × (w ≡ dst ++ w') × Wire ms w'
    unfolding encode_all encode_message
    encode_all-Wire [] f dst w e = ([], ok_inj (ok w) refl (sym e) ∙ sym (append-nil dst), refl)
    encode_all-Wire (m ∷ ms) f dst w e =
        let (dst', written, later) =
          >>=-eq-ok (frame_payload d c f dst (c.into_writer m)).1 _ w e in
        let (b, wrote, framed) = payload_written f dst dst' (c.into_writer m) written in
        let (w', whole, wire) = encode_all-Wire ms _ dst' w later in
        (
          frame b ++ w',
          whole
              ∙ ap (λ l. l ++ w') (framing.writes f b dst dst' framed)
              ∙ append_assoc dst (frame b) w',
          (b, w', wrote, (f, dst, dst', framed), refl, wire),
        )

    abbrev Stands : List M → Bytes → Reader F M → Type 0
    Stands ms rest r =
        (later : List M) × (ms ≡ r.items ++ later)
        × Wire later ((pending r.codec ++ r.buffer) ++ rest)

    -- What a look at the buffer finds.
    abbrev Found : List M → Bytes → Reader F M → Type 0
    Found later rest r =
        ((m : M) × (ms : List M) × (g : F) × (left : Bytes) × (later ≡ m ∷ ms)
          × (decode_message d c r.codec r.buffer ≡ (g, left, ok (some m)))
          × Wire ms ((pending g ++ left) ++ rest))
        ⊎ ((g : F) × (left : Bytes) × (decode_message d c r.codec r.buffer ≡ (g, left, ok none))
            × (pending g ++ left ≡ pending r.codec ++ r.buffer)
            × (rest ≡ [] → later ≡ []))

    look :
        (later : List M) (rest : Bytes) (r : Reader F M)
        → Wire later ((pending r.codec ++ r.buffer) ++ rest)
        → Found later rest r
    unfolding decode_message
    look [] rest r w =
        let (g, left, silent, same) =
          framing.silent r.codec r.buffer (both-nil (pending r.codec ++ r.buffer) rest w).0 in
        inr (
          g,
          left,
          rw (silent, deserialized) refl,
          same ∙ sym (both-nil (pending r.codec ++ r.buffer) rest w).0,
          λ _. refl,
        )
    look (m ∷ ms) rest r (b, tail, wrote, (f, dst, dst', fits), e, later) =
        elim (append-split (pending r.codec ++ r.buffer) rest (frame b) tail e) [
          | inl (t, complete, follows) ↦
              let (g, taken, empty) = framing.whole r.codec f b r.buffer dst dst' t fits complete in
              inl (
                m,
                ms,
                g,
                t,
                refl,
                rw (taken, deserialized, cbor.reads m b wrote) refl,
                rw (empty, ← follows) later,
              )
          | inr (t, partial, nonempty, follows) ↦
              let (g, left, waits, same) =
                framing.part r.codec f b r.buffer dst dst' t fits partial nonempty in
              inr (
                g,
                left,
                rw (waits, deserialized) refl,
                same,
                λ over. absurd (nonempty (both-nil t tail (sym follows ∙ over)).0),
              )
        ]

    Reads-Stands :
        (ms : List M) (rest got : Bytes) (r : Reader F M)
        → Reads d.new (decode_message d c) got r
        → Wire ms (got ++ rest)
        → Stands ms rest r
    Reads-Stands ms rest got r start w = (ms, refl, rw framing.fresh w)
    Reads-Stands ms rest got r (arrive got' chunk r0 reads) w =
        let (later, split, wire) =
          Reads-Stands ms (chunk ++ rest) got' r0 reads (rw (append_assoc got' chunk rest) at w) in
        (
          later,
          split,
          rw
              (
                ← append_assoc (pending r0.codec) r0.buffer chunk,
                append_assoc (pending r0.codec ++ r0.buffer) chunk rest,
              )
              wire,
        )
    Reads-Stands ms rest got r (wait got' left r0 g reads e) w =
        let (later, split, wire) = Reads-Stands ms rest got r0 reads w in
        elim (look later rest r0 wire) [
          | inl (m, ms', g', left', _, e', _) ↦
              absurd (nothing_there (ok none) (same_look _ e e').2 refl)
          | inr (g', left', e', same, _) ↦
              let (here, there, _) = same_look _ e e' in (later, split, rw (here, there, same) wire)
        ]
    Reads-Stands ms rest got r (item got' left r0 g m reads e) w =
        let (later, split, wire) = Reads-Stands ms rest got r0 reads w in
        elim (look later rest r0 wire) [
          | inl (m', ms', g', left', shape, e', wire') ↦
              let (here, there, found) = same_look _ e e' in
              (
                ms',
                split
                    ∙ rw
                        (
                          shape,
                          ← something_there (ok (some m)) refl found,
                          ← append_assoc r0.items (m ∷ []) ms',
                        )
                        refl,
                rw (here, there) wire',
              )
          | inr (g', left', e', same, _) ↦
              absurd (nothing_there (ok (some m)) refl (same_look _ e e').2)
        ]

    pub stream :
        (ms : List M) (w got rest : Bytes) (r : Reader F M)
        → encode_all (encode_message d c) d.new ms [] ≡ ok w
        → w ≡ got ++ rest
        → Reads d.new (decode_message d c) got r
        → InOrder d.new (decode_message d c) ms rest r
    stream ms w got rest r sent cut reads =
        let (w', whole, wire) = encode_all-Wire ms d.new [] w sent in
        let (later, split, wire') = Reads-Stands ms rest got r reads (rw (← cut, whole) wire) in
        (
          later,
          split,
          elim (look later rest r wire') [
            | inl (m, ms', g, left, shape, e, _) ↦ inl (m, ms', g, left, shape, e)
            | inr (g, left, e, _, over) ↦ inr (g, left, e, over)
          ],
        )

module _ {F Uuid : Type 0} (d : Framing F) (incoming : Cbor (RemoteInMessage Uuid))
    (outgoing : Cbor (RemoteOutMessage Uuid)) (frame : Bytes → Bytes) (pending : F → Bytes)
    (framing : IsFraming d frame pending) where
  -- Let a client encode some messages one after the other with `ClientCodec`, and let the bytes
  -- arrive at a `ServerCodec` in chunks of any size, between which it decodes any number of
  -- times. Then it has handed out the first of these messages, in order and unchanged, it never
  -- meets an error, and once all bytes are there it hands out the rest. The framing keeps the
  -- contract of a length-delimited codec, and what CBOR writes of a message, it reads again.
  pub client_to_server :
      IsCbor incoming
      → (ms : List (RemoteInMessage Uuid)) (w got rest : Bytes)
        (r : Reader F (RemoteInMessage Uuid))
      → encode_all (client_encode d incoming outgoing) d.new ms [] ≡ ok w
      → w ≡ got ++ rest
      → Reads d.new (server_decode d incoming outgoing) got r
      → InOrder d.new (server_decode d incoming outgoing) ms rest r
  unfolding client_encode server_decode
  client_to_server cbor = stream d incoming frame pending framing cbor

  -- The same from the server to a client: let the server encode messages with `ServerCodec`, and
  -- let the bytes arrive at a `ClientCodec` in chunks of any size, between which it decodes any
  -- number of times. Then it has handed out the first of these messages, in order and unchanged,
  -- it never meets an error, and once all bytes are there it hands out the rest. The framing
  -- keeps the contract of a length-delimited codec, and what CBOR writes of a message, it reads
  -- again.
  pub server_to_client :
      IsCbor outgoing
      → (ms : List (RemoteOutMessage Uuid)) (w got rest : Bytes)
        (r : Reader F (RemoteOutMessage Uuid))
      → encode_all (server_encode d incoming outgoing) d.new ms [] ≡ ok w
      → w ≡ got ++ rest
      → Reads d.new (client_decode d incoming outgoing) got r
      → InOrder d.new (client_decode d incoming outgoing) ms rest r
  unfolding server_encode client_decode
  server_to_client cbor = stream d outgoing frame pending framing cbor
