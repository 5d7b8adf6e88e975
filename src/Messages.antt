-- ===== src/Messages.antt =====
-- src/server/messages.rs and the message types of src/server/protocol.rs. Session identifiers are
-- any type: the source takes them from the `uuid` crate.
use Prim.Native.String.{String}
use sternhamla_server.Prelude.{ℕ, List}
use sternhamla_server.Player.{Player}
use sternhamla_server.Movement.{MovementIndices}
use sternhamla_server.Game.{Scores, GameResult}

-- From the server to one client task.
pub data ServerMessage : Type 0 where
  turn : List MovementIndices → ServerMessage

-- From the server to all client tasks.
pub data ServerBroadcast : Type 0 where
  disconnect : ServerBroadcast
  movement : Player → MovementIndices → Scores → ServerBroadcast
  game_finished : GameResult → ServerBroadcast

pub data ClientRequest : Type 0 where
  disconnect : ClientRequest
  choice : ℕ → ClientRequest

-- From a client task to the server.
pub record ClientMessage : Type 0 where
  pub player : Player
  pub request : ClientRequest

-- From the server to the remote client.
pub data RemoteOutMessage (Uuid : Type 0) : Type 0 where
  welcome : Uuid → RemoteOutMessage Uuid
  reject : String → RemoteOutMessage Uuid
  disconnect : RemoteOutMessage Uuid
  turn : List MovementIndices → RemoteOutMessage Uuid
  movement : Player → MovementIndices → Scores → RemoteOutMessage Uuid
  game_finished : GameResult → RemoteOutMessage Uuid

-- From the remote client to the server.
pub data RemoteInMessage (Uuid : Type 0) : Type 0 where
  hello : RemoteInMessage Uuid
  reconnect : Uuid → RemoteInMessage Uuid
  choice : ℕ → RemoteInMessage Uuid
