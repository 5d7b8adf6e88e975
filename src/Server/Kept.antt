-- ===== src/Server/Kept.antt =====
-- `turn_loop`: the sessions stay as they are.
pub mod Games
use package.sternhamla_server.Prelude.{
  ℕ, zero, suc, ◌≡◌, inl, inr, Bool, true, false, none, some, List, [], ◌∷◌, get_elem?, leb, Eq,
  ◌==◌, Bool-cases, Option-cases, Exec, ok, length,
}
use package.sternhamla_server.Player.{Player, player_eq}
use package.sternhamla_server.Movement.{MovementIndices}
use package.sternhamla_server.Game.{
  Game, GameStatus, GameResult, playing, finished, apply_movement_unchecked, new_game,
}
use package.sternhamla_server.Messages.{ClientRequest}
use package.sternhamla_server.Server.{
  contains_key, get, MainThreadMessage, client_connected, client_reconnected,
  client_reconnected_handle, request_free_player, Server, ServerError, Run, returned, failed,
  waiting, crashed, spent,
}
use package.sternhamla_server.Server.Turn.{
  TurnEvent, main, client, Turn, again, played, bail, crash, send_turn, reconnect, main_step,
  broadcast_move, choose, client_step, turn_step, turn_loop, open_turn, handle_turn,
  available_moves,
}
use package.sternhamla_server.Server.Loop.{Events, game_round, rounds, game_loop}

module _ {Uuid Sender : Type 0} (l : List (Uuid × Player)) where
  -- The sessions are l after a message.
  pub Kept : Turn Uuid Sender → Type 0
  Kept (again s) = s.sessions ≡ l
  Kept (played g status s) = s.sessions ≡ l
  Kept (bail x s) = s.sessions ≡ l
  Kept crash = Unit {0}

  -- However the loop ends, the sessions are l. The theorems on the whole loop exclude a crash.
  unfoldable pub Keeps : {Ev A : Type 0} → Run Uuid Sender Ev A → Type 0
  Keeps (returned x s left) = s.sessions ≡ l
  Keeps (failed x s) = s.sessions ≡ l
  Keeps (waiting s) = s.sessions ≡ l
  Keeps crashed = Unit {0}
  Keeps spent = Unit {0}

module _ {Uuid Sender : Type 0} ⦃e : Eq Uuid⦄ (l : List (Uuid × Player)) where
  send_turn-Kept :
      (sent : Bool) (tx : Sender) (movements : List MovementIndices) (s : Server Uuid Sender)
      → s.sessions ≡ l
      → Kept l (send_turn sent tx movements s)
  unfolding Kept
  send_turn-Kept true tx movements s h = h
  send_turn-Kept false tx movements s h = h

  module _ (movements : List MovementIndices) (current : Player) (g : Game) where
    main_step-Kept :
        (sent : Bool) (m : MainThreadMessage Uuid Sender) (s : Server Uuid Sender)
        → s.sessions ≡ l
        → Kept l (main_step sent movements current m s)
    unfolding main_step reconnect Kept
    main_step-Kept sent (client_connected p u tx) s h = h
    main_step-Kept sent (client_reconnected_handle u) s h = h
    main_step-Kept sent request_free_player s h = h
    main_step-Kept sent (client_reconnected p tx) s h =
        elim (Bool-cases (contains_key s.disconnected p)) [
          | inr present ↦ rw present h
          | inl gone ↦ elim (Bool-cases (p == current)) [
            | inl mine ↦ rw (gone, mine) (send_turn-Kept sent tx movements _ h)
            | inr other ↦ rw (gone, other) h
          ]
        ]

    broadcast_move-Kept :
        (heard : Bool) (p : Player) (m : MovementIndices) (s : Server Uuid Sender)
        → s.sessions ≡ l
        → (r : Exec ServerError (Game × GameStatus)) → Kept l (broadcast_move heard p m s r)
    unfolding Kept
    broadcast_move-Kept true p m s h (ok (g', status)) = h
    broadcast_move-Kept false p m s h (ok (g', status)) = h
    broadcast_move-Kept heard p m s h (Exec.err x) = h
    broadcast_move-Kept heard p m s h Exec.panic = tt
    broadcast_move-Kept heard p m s h Exec.undefined = tt
    broadcast_move-Kept heard p m s h Exec.stuck = tt

    client_step-Kept :
        (heard : Bool) (p : Player) (r : ClientRequest) (s : Server Uuid Sender)
        → s.sessions ≡ l
        → Kept l (client_step heard movements current g (record { player = p; request = r }) s)
    unfolding client_step choose Kept
    client_step-Kept heard p ClientRequest.disconnect s h = h
    client_step-Kept heard p (ClientRequest.choice n) s h = elim (Bool-cases (p == current)) [
      | inr other ↦ rw other h
      | inl mine ↦ elim (Option-cases (get_elem? movements n)) [
        | inl outside ↦ rw (mine, outside) h
        | inr (m, found) ↦
            rw (mine, found)
              (broadcast_move-Kept heard p m s h (apply_movement_unchecked {E = ServerError} g m))
      ]
    ]

    turn_step-Kept :
        (ev : TurnEvent Uuid Sender × Bool) (s : Server Uuid Sender)
        → s.sessions ≡ l
        → Kept l (turn_step movements current g ev s)
    unfolding turn_step Kept
    turn_step-Kept (main none, sent) s h = h
    turn_step-Kept (main (some m), sent) s h = main_step-Kept sent m s h
    turn_step-Kept (client none, sent) s h = h
    turn_step-Kept (client (some m), sent) s h = client_step-Kept sent m.player m.request s h

    then-Keeps :
        (evs : Events Uuid Sender)
        (k : Server Uuid Sender
          → Run Uuid Sender (TurnEvent Uuid Sender × Bool) (Game × GameStatus))
        → ((s : Server Uuid Sender) → s.sessions ≡ l → Keeps l (k s))
        → (t : Turn Uuid Sender) → Kept l t
        → Keeps l (elim t [
          | again s' ↦ k s'
          | played g' status s' ↦ returned (g', status) s' evs
          | bail x s' ↦ failed x s'
          | crash ↦ crashed
        ])
    unfolding Kept Keeps
    then-Keeps evs k next (again s') t = next s' t
    then-Keeps evs k next (played g' status s') t = t
    then-Keeps evs k next (bail x s') t = t
    then-Keeps evs k next crash t = tt

    turn_loop-Keeps :
        (evs : Events Uuid Sender) (s : Server Uuid Sender)
        → s.sessions ≡ l
        → Keeps l (turn_loop movements current g evs s)
    unfolding turn_loop Keeps
    turn_loop-Keeps [] s h = h
    turn_loop-Keeps (ev ∷ evs) s h =
        then-Keeps evs (turn_loop movements current g evs) (λ s' h'. turn_loop-Keeps evs s' h')
          (turn_step movements current g ev s) (turn_step-Kept ev s h)

    pub open_turn-Kept :
        (sent : Bool) (s : Server Uuid Sender)
        → s.sessions ≡ l
        → Kept l (open_turn sent movements current s)
    unfolding open_turn Kept
    open_turn-Kept sent s h = elim (Bool-cases (contains_key s.disconnected current)) [
      | inl gone ↦ rw gone h
      | inr present ↦ elim (Option-cases (get s.clients_tx current)) [
        | inl none_there ↦ rw (present, none_there) h
        | inr (tx, there) ↦ rw (present, there) (send_turn-Kept sent tx movements s h)
      ]
    ]

    pub opened-Keeps :
        (evs : Events Uuid Sender) (t : Turn Uuid Sender)
        → Kept l t
        → Keeps l (elim t [
          | again s' ↦ turn_loop movements current g evs s'
          | played g' status s' ↦ crashed
          | bail x s' ↦ failed x s'
          | crash ↦ crashed
        ])
    unfolding Kept Keeps
    opened-Keeps evs (again s) t = turn_loop-Keeps evs s t
    opened-Keeps evs (played g' status s) t = tt
    opened-Keeps evs (bail x s) t = t
    opened-Keeps evs crash t = tt
