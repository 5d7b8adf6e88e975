-- ===== src/Client.antt =====
-- src/server/client.rs: the task of one player, which shows the game as its player sees it.
pub mod Relative
pub mod Views
pub mod Task
pub mod Errorless
pub mod Events
pub mod Forward
use package.sternhamla_server.Prelude.{
  ℕ, ◌-◌, Bool, true, false, Option, none, some, List, [], ◌∷◌, ◌++◌, Exec, ok, err, panic,
  undefined, stuck, ◌>>=◌, try_map, leb, if◌then◌else◌,
}
use package.sternhamla_server.Player.{Player, player1, player2, opponent}
use package.sternhamla_server.Board.Hex.{HexIdx, board_length}
use package.sternhamla_server.Movement.{MovementIndices}
use package.sternhamla_server.Game.{Scores, GameResult, won, max_turns}
use package.sternhamla_server.Messages.{
  ServerMessage, ServerBroadcast, ClientRequest, ClientMessage, RemoteOutMessage, RemoteInMessage,
}

pub data ClientError : Type 0 where
  send_failed request_failed server_closed broadcast_closed : ClientError

unfoldable pub relative_player : Player → Player → Player
unfolding opponent
relative_player player1 p = p
relative_player player2 p = opponent p

-- `BOARD_LENGTH - 1 - c`, which panics below 0.
unfoldable pub flip : {E : Type 0} → ℕ → Exec E ℕ
flip c = if leb c (board_length - 1) then ok (board_length - 1 - c) else panic

unfoldable pub relative_idx : {E : Type 0} → Player → HexIdx → Exec E HexIdx
unfolding flip
relative_idx player1 idx = ok idx
relative_idx player2 (q, r) = do q' ← flip q; r' ← flip r; ok (q', r')

unfoldable pub relative_movement : {E : Type 0} → Player → MovementIndices → Exec E MovementIndices
unfolding relative_idx
relative_movement self (from, to) = do
  from' ← relative_idx self from
  to' ← relative_idx self to
  ok (from', to')

unfoldable pub relative_scores : Player → Scores → Scores
relative_scores player1 scores = scores
relative_scores player2 (s1, s2) = (s2, s1)

unfoldable pub relative_result : Player → GameResult → GameResult
unfolding relative_player relative_scores
relative_result self (won winner turns scores) =
    won (relative_player self winner) turns (relative_scores self scores)
relative_result self (max_turns turns scores) = max_turns turns (relative_scores self scores)

-- What the task has sent, to the remote client and to the server, oldest first.
pub record Outbox (Uuid : Type 0) : Type 0 where
  pub remote : List (RemoteOutMessage Uuid)
  pub server : List ClientMessage

module _ {Uuid : Type 0} where
  -- Whether a message can be sent is up to the connection: the flag says so.
  abbrev pub send_remote_message :
      Bool → RemoteOutMessage Uuid → Outbox Uuid → Exec ClientError (Outbox Uuid)
  send_remote_message true m o = ok (record o { remote = o.remote ++ m ∷ [] })
  send_remote_message false m o = err send_failed

  abbrev pub send_request :
      Bool → Player → ClientRequest → Outbox Uuid → Exec ClientError (Outbox Uuid)
  send_request true self r o =
      ok (record o { server = o.server ++ record { player = self; request = r } ∷ [] })
  send_request false self r o = err request_failed

  unfoldable pub handle_remote_message :
      Bool → Player → RemoteInMessage Uuid → Outbox Uuid → Exec ClientError (Outbox Uuid)
  handle_remote_message sent self (RemoteInMessage.choice n) o =
      send_request sent self (ClientRequest.choice n) o
  handle_remote_message sent self RemoteInMessage.hello o = ok o
  handle_remote_message sent self (RemoteInMessage.reconnect _) o = ok o

  -- The message that a broadcast becomes for this player.
  unfoldable pub translate_broadcast :
      {E : Type 0} → Player → ServerBroadcast → Exec E (RemoteOutMessage Uuid)
  unfolding relative_player relative_movement relative_scores relative_result
  translate_broadcast self ServerBroadcast.disconnect = ok RemoteOutMessage.disconnect
  translate_broadcast self (ServerBroadcast.movement player m scores) = do
    m' ← relative_movement self m
    ok (RemoteOutMessage.movement (relative_player self player) m' (relative_scores self scores))
  translate_broadcast self (ServerBroadcast.game_finished result) =
      ok (RemoteOutMessage.game_finished (relative_result self result))

  unfoldable pub handle_server_broadcast :
      Bool → Player → ServerBroadcast → Outbox Uuid → Exec ClientError (Outbox Uuid)
  unfolding translate_broadcast
  handle_server_broadcast sent self m o =
      translate_broadcast self m >>= λ out. send_remote_message sent out o

  unfoldable pub handle_server_message :
      Bool → Player → ServerMessage → Outbox Uuid → Exec ClientError (Outbox Uuid)
  unfolding relative_movement try_map
  handle_server_message sent self (ServerMessage.turn movements) o = do
    movements' ← try_map (relative_movement self) movements
    send_remote_message sent (RemoteOutMessage.turn movements') o

-- What a branch of `select!` receives; `none` is a closed channel or stream.
pub data Received (Uuid : Type 0) : Type 0 where
  from_server : Option ServerMessage → Received Uuid
  from_broadcast : ServerBroadcast → Received Uuid
  broadcast_lagged : ℕ → Received Uuid
  broadcast_ended : Received Uuid
  from_remote : RemoteInMessage Uuid → Received Uuid
  remote_error : Received Uuid
  remote_ended : Received Uuid

-- The loop goes on, ends by `break`, or ends with an error or a panic.
pub data Next (Uuid : Type 0) : Type 0 where
  continue : Outbox Uuid → Next Uuid
  break : Outbox Uuid → Next Uuid
  bail : ClientError → Next Uuid
  crash : Next Uuid

-- How a run ends: `waiting` when it has handled all that was received.
pub data Ending : Type 0 where
  waiting finished crashed : Ending
  failed : ClientError → Ending

module _ {Uuid : Type 0} where
  abbrev pub or_bail : Exec ClientError (Outbox Uuid) → Next Uuid
  or_bail (ok o) = continue o
  or_bail (err e) = bail e
  or_bail panic = crash
  or_bail undefined = crash
  or_bail stuck = crash

  -- The error of a remote message is logged, and the loop goes on.
  abbrev pub or_continue : Outbox Uuid → Exec ClientError (Outbox Uuid) → Next Uuid
  or_continue o (ok o') = continue o'
  or_continue o (err e) = continue o
  or_continue o panic = crash
  or_continue o undefined = crash
  or_continue o stuck = crash

  unfoldable pub select : Bool → Player → Received Uuid → Outbox Uuid → Next Uuid
  unfolding handle_server_message handle_server_broadcast handle_remote_message
  select sent self (from_server none) o = bail server_closed
  select sent self (from_server (some m)) o = or_bail (handle_server_message sent self m o)
  select sent self (from_broadcast m) o = or_bail (handle_server_broadcast sent self m o)
  select sent self (broadcast_lagged n) o = continue o
  select sent self broadcast_ended o = bail broadcast_closed
  select sent self (from_remote m) o = or_continue o (handle_remote_message sent self m o)
  select sent self remote_error o = continue o
  select sent self remote_ended o = break o

  -- After `break` the error of the last request is ignored.
  abbrev pub say_goodbye : Bool → Player → Outbox Uuid → Outbox Uuid
  say_goodbye sent self o = elim (send_request sent self ClientRequest.disconnect o) [
    | ok o' ↦ o'
    | _ ↦ o
  ]

  unfoldable pub run : Player → List (Received Uuid × Bool) → Outbox Uuid → Outbox Uuid × Ending
  unfolding select
  run self [] o = (o, waiting)
  run self ((r, sent) ∷ rs) o = elim (select sent self r o) [
    | continue o' ↦ run self rs o'
    | break o' ↦ (say_goodbye sent self o', finished)
    | bail e ↦ (o, failed e)
    | crash ↦ (o, crashed)
  ]
