-- ===== src/Handshake.antt =====
-- src/server/handshake.rs: how a connection becomes the client task of a player.
pub mod Session
pub mod Turns
pub mod Race
use package.sternhamla_server.Prelude.{
  Bool, true, false, Option, none, some, List, [], ◌∷◌, ◌++◌, if◌then◌else◌,
}
use Prim.Native.String.{String}
use package.sternhamla_server.Player.{Player}
use package.sternhamla_server.Messages.{RemoteOutMessage, RemoteInMessage}
use package.sternhamla_server.Server.{
  MainThreadMessage, client_connected, client_reconnected, client_reconnected_handle,
  request_free_player,
}

-- The first item of the stream.
pub data Opening (Uuid : Type 0) : Type 0 where
  message : RemoteInMessage Uuid → Opening Uuid
  broken closed : Opening Uuid

-- What a handshake meets: the first item, which of its sends go through, the answer of the server
-- (`none` if its channel is dropped), the fresh session identifier, and the channel to the client.
pub record Surroundings (Uuid Sender : Type 0) : Type 0 where
  pub first : Opening Uuid
  pub main_open : Bool
  pub answer : Option (Option Player)
  pub sink_open : Bool
  pub notified : Bool
  pub new_v4 : Uuid
  pub server_tx : Sender

-- What a handshake does: the messages to the remote client and to the main thread, in order, and
-- the player whose task it spawns.
pub record Handshaken (Uuid Sender : Type 0) : Type 0 where
  pub told : List (RemoteOutMessage Uuid)
  pub sent : List (MainThreadMessage Uuid Sender)
  pub task : Option Player

module _ {Uuid Sender : Type 0} where
  abbrev pub nothing_done : Handshaken Uuid Sender
  nothing_done = record { told = []; sent = []; task = none }

  -- With a player: welcome, spawn the task, notify the server. `Client::new` never fails.
  abbrev pub welcome_client :
      Surroundings Uuid Sender
      → Uuid
      → Player
      → MainThreadMessage Uuid Sender
      → MainThreadMessage Uuid Sender
      → Handshaken Uuid Sender
  welcome_client w session player question notice =
      if w.sink_open
      then record {
        told = RemoteOutMessage.welcome session ∷ [];
        sent = if w.notified then question ∷ notice ∷ [] else question ∷ [];
        task = some player;
      }
      else record { told = []; sent = question ∷ []; task = none }

  -- Without: the rejection, whose failure is ignored.
  abbrev pub reject_client :
      Surroundings Uuid Sender → String → MainThreadMessage Uuid Sender → Handshaken Uuid Sender
  reject_client w reason question = record {
    told = if w.sink_open then RemoteOutMessage.reject reason ∷ [] else [];
    sent = question ∷ [];
    task = none;
  }

  abbrev pub answer_hello :
      Surroundings Uuid Sender → Option (Option Player) → Handshaken Uuid Sender
  answer_hello w (some (some player)) =
      welcome_client w w.new_v4 player request_free_player
        (client_connected player w.new_v4 w.server_tx)
  answer_hello w (some none) = reject_client w "Server full" request_free_player
  answer_hello w none = record { told = []; sent = request_free_player ∷ []; task = none }

  abbrev pub answer_reconnect :
      Surroundings Uuid Sender → Uuid → Option (Option Player) → Handshaken Uuid Sender
  answer_reconnect w uuid (some (some player)) =
      welcome_client w uuid player (client_reconnected_handle uuid)
        (client_reconnected player w.server_tx)
  answer_reconnect w uuid (some none) =
      reject_client w "Unknown Session" (client_reconnected_handle uuid)
  answer_reconnect w uuid none = record {
    told = [];
    sent = client_reconnected_handle uuid ∷ [];
    task = none;
  }

  abbrev pub open_handshake : Surroundings Uuid Sender → Opening Uuid → Handshaken Uuid Sender
  open_handshake w (message RemoteInMessage.hello) =
      if w.main_open then answer_hello w w.answer else nothing_done
  open_handshake w (message (RemoteInMessage.reconnect uuid)) =
      if w.main_open then answer_reconnect w uuid w.answer else nothing_done
  open_handshake w (message (RemoteInMessage.choice n)) = nothing_done
  open_handshake w broken = nothing_done
  open_handshake w closed = nothing_done

  unfoldable pub handle_handshake : Surroundings Uuid Sender → Handshaken Uuid Sender
  handle_handshake w = open_handshake w w.first
