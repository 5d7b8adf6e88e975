-- ===== src/Codec.antt =====
-- src/server/protocol.rs: `ServerCodec`, `ClientCodec` and `RemoteInMessage::from_bytes`.
--
-- The framing of the tokio_util crate (`LengthDelimitedCodec`) and the serialization of the
-- ciborium crate are parameters: records of operations, with what their documentation says of them
-- in `IsFraming` and `IsCbor`.
pub mod Stream
use package.sternhamla_server.Prelude.{
  ℕ, ◌≡◌, ◌≢◌, Option, none, some, List, [], ◌∷◌, ◌++◌, Exec, ok, err, panic, undefined, stuck,
  ◌>>=◌, map_err,
}
use package.sternhamla_server.Messages.{RemoteOutMessage, RemoteInMessage}

abbrev pub Bytes : Type 0
Bytes = List ℕ

-- `ciborium::into_writer` to an empty vector, and `ciborium::from_reader`.
pub record Cbor (M : Type 0) : Type 0 where
  pub into_writer : M → Exec (Unit {0}) Bytes
  pub from_reader : Bytes → Exec (Unit {0}) M

-- What is written is read again.
pub record IsCbor {M : Type 0} (c : Cbor M) : Type 0 where
  pub reads : (m : M) (b : Bytes) → c.into_writer m ≡ ok b → c.from_reader b ≡ ok m

-- A `LengthDelimitedCodec` with its state. `decode` returns the state, what it leaves in the buffer,
-- and a frame, nothing, or an error; `encode` returns the state and the buffer that it wrote to.
pub record Framing (F : Type 0) : Type 0 where
  pub new : F
  pub decode : F → Bytes → F × Bytes × Exec (Unit {0}) (Option Bytes)
  pub encode : F → Bytes → Bytes → F × Exec (Unit {0}) Bytes

-- `frame b` is the frame of a payload `b`, and `pending f` what the state has taken from the buffer
-- of a frame that is not complete. A payload is written behind what the buffer holds, or refused.
-- The decoder takes a frame that is complete, and waits for more when it has a part of one.
pub record IsFraming {F : Type 0} (d : Framing F) (frame : Bytes → Bytes) (pending : F → Bytes)
    : Type 0 where
  pub fresh : pending d.new ≡ []
  pub writes : (f : F) (b dst dst' : Bytes) → (d.encode f b dst).1 ≡ ok dst' → dst' ≡ dst ++ frame b
  pub whole :
      (f f' : F) (b src dst dst' rest : Bytes)
      → (d.encode f' b dst).1 ≡ ok dst'
      → pending f ++ src ≡ frame b ++ rest
      → (g : F) × (d.decode f src ≡ (g, rest, ok (some b))) × (pending g ≡ [])
  pub part :
      (f f' : F) (b src dst dst' more : Bytes)
      → (d.encode f' b dst).1 ≡ ok dst'
      → (pending f ++ src) ++ more ≡ frame b
      → more ≢ []
      → (g : F) × (left : Bytes) × (d.decode f src ≡ (g, left, ok none))
        × (pending g ++ left ≡ pending f ++ src)
  pub silent :
      (f : F) (src : Bytes)
      → pending f ++ src ≡ []
      → (g : F) × (left : Bytes) × (d.decode f src ≡ (g, left, ok none)) × (pending g ++ left ≡ [])

-- The context of an error; `framing` is the error of the frame's decoder, passed on.
pub data CodecError : Type 0 where
  framing deserialize serialize frame_message : CodecError

module _ {F M : Type 0} (d : Framing F) (c : Cbor M) where
  unfoldable pub deserialized : Exec (Unit {0}) (Option Bytes) → Exec CodecError (Option M)
  deserialized (ok none) = ok none
  deserialized (ok (some bytes)) =
      map_err (λ _. deserialize) (c.from_reader bytes) >>= λ m. ok (some m)
  deserialized (err _) = err framing
  deserialized panic = panic
  deserialized undefined = undefined
  deserialized stuck = stuck

  -- The body of both decoders: the state, the buffer and the answer.
  unfoldable pub decode_message : F → Bytes → F × Bytes × Exec CodecError (Option M)
  unfolding deserialized
  decode_message f src = let (g, left, frame) = d.decode f src in (g, left, deserialized frame)

  -- What both encoders do with the serialized message.
  unfoldable pub frame_payload : F → Bytes → Exec (Unit {0}) Bytes → F × Exec CodecError Bytes
  frame_payload f dst (ok buf) =
      let (g, written) = d.encode f buf dst in (g, map_err (λ _. frame_message) written)
  frame_payload f dst (err _) = (f, err serialize)
  frame_payload f dst panic = (f, panic)
  frame_payload f dst undefined = (f, undefined)
  frame_payload f dst stuck = (f, stuck)

  -- The body of both encoders: the state and the buffer.
  unfoldable pub encode_message : F → M → Bytes → F × Exec CodecError Bytes
  unfolding frame_payload
  encode_message f item dst = frame_payload f dst (c.into_writer item)

module _ {F Uuid : Type 0} (d : Framing F) (incoming : Cbor (RemoteInMessage Uuid))
    (outgoing : Cbor (RemoteOutMessage Uuid)) where
  -- `ServerCodec`: its only field is the framing codec.
  unfoldable pub server_decode :
      F → Bytes → F × Bytes × Exec CodecError (Option (RemoteInMessage Uuid))
  unfolding decode_message
  server_decode f src = decode_message d incoming f src

  unfoldable pub server_encode : F → RemoteOutMessage Uuid → Bytes → F × Exec CodecError Bytes
  unfolding encode_message
  server_encode f item dst = encode_message d outgoing f item dst

  -- `ClientCodec`.
  unfoldable pub client_decode :
      F → Bytes → F × Bytes × Exec CodecError (Option (RemoteOutMessage Uuid))
  unfolding decode_message
  client_decode f src = decode_message d outgoing f src

  unfoldable pub client_encode : F → RemoteInMessage Uuid → Bytes → F × Exec CodecError Bytes
  unfolding encode_message
  client_encode f item dst = encode_message d incoming f item dst

-- `RemoteInMessage::from_bytes`.
unfoldable pub from_bytes :
    {Uuid : Type 0} → Cbor (RemoteInMessage Uuid) → Bytes → Exec CodecError (RemoteInMessage Uuid)
from_bytes incoming bytes = map_err (λ _. deserialize) (incoming.from_reader bytes)
