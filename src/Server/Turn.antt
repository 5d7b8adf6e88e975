-- ===== src/Server/Turn.antt =====
-- src/server/mod.rs, `handle_turn`: one turn, from the list of moves to the move made.
use sternhamla_server.Prelude.{
  ℕ, Bool, true, false, Option, none, some, List, [], ◌∷◌, get_elem?, Exec, ok, err, panic,
  undefined, stuck, ◌>>=◌, try_map, Eq, ◌==◌, if◌then◌else◌,
}
use sternhamla_server.Player.{Player, player_eq}
use sternhamla_server.Movement.{MovementIndices, to_indices}
use sternhamla_server.Game.{
  Game, GameStatus, status_scores, iter_available_moves, apply_movement_unchecked,
}
use sternhamla_server.Messages.{ServerMessage, ServerBroadcast, ClientRequest, ClientMessage}
use sternhamla_server.Server.{
  MainThreadMessage, client_connected, client_reconnected, client_reconnected_handle,
  request_free_player, Server, Run, returned, failed, waiting, crashed, ServerError, main_closed,
  clients_closed, unknown_player, turn_not_sent, not_broadcast, get, insert, remove, contains_key,
  emit, answered, told, announced, free_player, session_player,
}

-- What `select!` receives in a turn; `none` is a closed channel. Of the two channels either may
-- come first, so a run is any sequence of these.
pub data TurnEvent (Uuid Sender : Type 0) : Type 0 where
  main : Option (MainThreadMessage Uuid Sender) → TurnEvent Uuid Sender
  client : Option ClientMessage → TurnEvent Uuid Sender

-- What a message does to a turn.
pub data Turn (Uuid Sender : Type 0) : Type 0 where
  again : Server Uuid Sender → Turn Uuid Sender
  played : Game → GameStatus → Server Uuid Sender → Turn Uuid Sender
  bail : ServerError → Server Uuid Sender → Turn Uuid Sender
  crash : Turn Uuid Sender

-- `unique` of the itertools crate is a parameter.
unfoldable pub available_moves :
    {E : Type 0}
    → (List MovementIndices → List MovementIndices)
    → Game
    → Exec E (List MovementIndices)
unfolding iter_available_moves try_map to_indices
available_moves unique g = do
  found ← iter_available_moves g
  indices ← try_map to_indices found
  ok (unique indices)

module _ {Uuid Sender : Type 0} ⦃e : Eq Uuid⦄ where
  -- Sends the list of moves; the flag says whether the channel takes it.
  abbrev pub send_turn :
      Bool → Sender → List MovementIndices → Server Uuid Sender → Turn Uuid Sender
  send_turn true tx movements s = again (emit s (told tx (ServerMessage.turn movements)))
  send_turn false tx movements s = bail turn_not_sent s

  unfoldable pub reconnect :
      Bool → List MovementIndices → Player → Player → Sender → Server Uuid Sender → Turn Uuid Sender
  reconnect sent movements current player tx s =
      if contains_key s.disconnected player
      then (let s' : Server Uuid Sender = record s {
        disconnected = remove s.disconnected player;
        clients_tx = insert s.clients_tx player tx;
      } in
          if player == current then send_turn sent tx movements s' else again s')
      else again s

  unfoldable pub main_step :
      Bool
      → List MovementIndices
      → Player
      → MainThreadMessage Uuid Sender
      → Server Uuid Sender
      → Turn Uuid Sender
  unfolding reconnect free_player session_player
  main_step sent movements current (client_reconnected player tx) s =
      reconnect sent movements current player tx s
  main_step sent movements current (client_connected _ _ _) s = again s
  main_step sent movements current (client_reconnected_handle uuid) s =
      again (emit s (answered (session_player uuid s.sessions)))
  main_step sent movements current request_free_player s = again (emit s (answered (free_player s)))

  -- `broadcast_tx.send(..)` fails if no task listens.
  abbrev pub broadcast_move :
      Bool
      → Player
      → MovementIndices
      → Server Uuid Sender
      → Exec ServerError (Game × GameStatus)
      → Turn Uuid Sender
  broadcast_move true player m s (ok (g, status)) =
      played g status
        (emit s (announced (ServerBroadcast.movement player m (status_scores status))))
  broadcast_move false player m s (ok (g, status)) = bail not_broadcast s
  broadcast_move heard player m s (err x) = bail x s
  broadcast_move heard player m s panic = crash
  broadcast_move heard player m s undefined = crash
  broadcast_move heard player m s stuck = crash

  unfoldable pub choose :
      Bool
      → List MovementIndices
      → Player
      → Game
      → Player
      → ℕ
      → Server Uuid Sender
      → Turn Uuid Sender
  unfolding apply_movement_unchecked status_scores
  choose heard movements current g player n s =
      if player == current
      then elim (get_elem? movements n) [
        | none ↦ again s
        | some m ↦ broadcast_move heard player m s (apply_movement_unchecked g m)
      ]
      else again s

  unfoldable pub client_step :
      Bool
      → List MovementIndices
      → Player
      → Game
      → ClientMessage
      → Server Uuid Sender
      → Turn Uuid Sender
  unfolding choose
  client_step heard movements current g m s = elim m.request [
    | ClientRequest.disconnect ↦ again (record s {
      clients_tx = remove s.clients_tx m.player;
      disconnected = insert s.disconnected m.player tt;
    })
    | ClientRequest.choice n ↦ choose heard movements current g m.player n s
  ]

  unfoldable pub turn_step :
      List MovementIndices
      → Player
      → Game
      → TurnEvent Uuid Sender × Bool
      → Server Uuid Sender
      → Turn Uuid Sender
  unfolding main_step client_step
  turn_step movements current g (main none, sent) s = bail main_closed s
  turn_step movements current g (main (some m), sent) s = main_step sent movements current m s
  turn_step movements current g (client none, sent) s = bail clients_closed s
  turn_step movements current g (client (some m), sent) s = client_step sent movements current g m s

  -- The receiving loop. Each event comes with the fate of the message that its handler sends.
  unfoldable pub turn_loop :
      List MovementIndices
      → Player
      → Game
      → List (TurnEvent Uuid Sender × Bool)
      → Server Uuid Sender
      → Run Uuid Sender (TurnEvent Uuid Sender × Bool) (Game × GameStatus)
  unfolding turn_step
  turn_loop movements current g [] s = waiting s
  turn_loop movements current g (ev ∷ evs) s = elim (turn_step movements current g ev s) [
    | again s' ↦ turn_loop movements current g evs s'
    | played g' status s' ↦ returned (g', status) s' evs
    | bail x s' ↦ failed x s'
    | crash ↦ crashed
  ]

  -- The message that opens the turn, if the player is there.
  unfoldable pub open_turn :
      Bool → List MovementIndices → Player → Server Uuid Sender → Turn Uuid Sender
  open_turn sent movements current s =
      if contains_key s.disconnected current then again s else elim (get s.clients_tx current) [
        | none ↦ bail unknown_player s
        | some tx ↦ send_turn sent tx movements s
      ]

  unfoldable pub handle_turn :
      (List MovementIndices → List MovementIndices)
      → Bool
      → Player
      → Game
      → List (TurnEvent Uuid Sender × Bool)
      → Server Uuid Sender
      → Run Uuid Sender (TurnEvent Uuid Sender × Bool) (Game × GameStatus)
  unfolding available_moves open_turn turn_loop
  handle_turn unique sent current g evs s = elim (available_moves {E = Unit {0}} unique g) [
    | ok movements ↦ elim (open_turn sent movements current s) [
      | again s' ↦ turn_loop movements current g evs s'
      | played g' status s' ↦ crashed
      | bail x s' ↦ failed x s'
      | crash ↦ crashed
    ]
    | _ ↦ crashed
  ]
