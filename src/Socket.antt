-- ===== src/Socket.antt =====
-- src/server/ws.rs, `handle_ws`, and the TCP listener of src/bin/sternhalma-server.rs: both turn a
-- connection into a stream of messages and hand it to the handshake.
pub mod Transports
use package.sternhamla_server.Prelude.{
  ◌≡◌, ◌⊎◌, inl, inr, Option, none, some, List, [], ◌∷◌, map, Exec, ok, err, panic, undefined,
  stuck, ◌>>=◌, map_err,
}
use package.sternhamla_server.Messages.{RemoteOutMessage, RemoteInMessage}
use package.sternhamla_server.Codec.{Bytes, Cbor, CodecError, from_bytes}
use package.sternhamla_server.Handshake.{
  Opening, message, broken, closed, Surroundings, Handshaken, handle_handshake,
}

-- A message of a web socket. The adapter asks only for these two kinds.
pub data Message : Type 0 where
  binary : Bytes → Message
  close : Message
  other : Message

pub data SocketError (E : Type 0) : Type 0 where
  connection_closed unexpected_message not_serialized : SocketError E
  socket_failed : E → SocketError E
  message_failed : CodecError → SocketError E

module _ {E Uuid : Type 0} where
  -- The closure of `ws_read.map`.
  unfoldable pub read_message :
      Cbor (RemoteInMessage Uuid) → E ⊎ Message → Exec (SocketError E) (RemoteInMessage Uuid)
  unfolding from_bytes
  read_message incoming (inr (binary bin)) = map_err message_failed (from_bytes incoming bin)
  read_message incoming (inr close) = err connection_closed
  read_message incoming (inr other) = err unexpected_message
  read_message incoming (inl e) = err (socket_failed e)

  -- The closure of `SinkExt::with`.
  unfoldable pub write_message :
      Cbor (RemoteOutMessage Uuid) → RemoteOutMessage Uuid → Exec (SocketError E) Message
  write_message outgoing msg =
      map_err (λ _. not_serialized) (outgoing.into_writer msg) >>= λ buf. ok (binary buf)

-- What `stream.next()` of the handshake gives, with the items of the stream in order.
unfoldable pub next_item :
    {E F Uuid : Type 0} → List (Exec E (RemoteInMessage Uuid)) → Exec F (Opening Uuid)
next_item [] = ok closed
next_item (ok m ∷ items) = ok (message m)
next_item (err e ∷ items) = ok broken
next_item (panic ∷ items) = panic
next_item (undefined ∷ items) = undefined
next_item (stuck ∷ items) = stuck

module _ {Uuid Sender : Type 0} where
  -- `first` of the surroundings is what the stream gives.
  unfoldable pub shake :
      {E F : Type 0}
      → Surroundings Uuid Sender
      → List (Exec E (RemoteInMessage Uuid))
      → Exec F (Handshaken Uuid Sender)
  unfolding next_item
  shake w items = next_item items >>= λ first. ok (handle_handshake (record w { first = first }))

  -- A web socket, with the messages that it receives.
  unfoldable pub handle_ws :
      {E F : Type 0}
      → Cbor (RemoteInMessage Uuid)
      → Surroundings Uuid Sender
      → List (E ⊎ Message)
      → Exec F (Handshaken Uuid Sender)
  unfolding read_message shake
  handle_ws incoming w frames = shake w (map (read_message incoming) frames)

  -- A TCP connection, with the items that the framed stream yields.
  unfoldable pub handle_tcp :
      {F : Type 0}
      → Surroundings Uuid Sender
      → List (Exec CodecError (RemoteInMessage Uuid))
      → Exec F (Handshaken Uuid Sender)
  unfolding shake
  handle_tcp w items = shake w (map (map_err (λ e. e)) items)
