-- ===== src/Server/Steps.antt =====
-- `handle_turn`: what a turn does, whatever messages it receives.
use sternhamla_server.Prelude.{
  ℕ, ◌+◌, ◌<◌, ◌≡◌, ◌≢◌, inl, inr, refl, Bool, true, false, not, some, none, List, [], ◌∷◌, ◌++◌,
  ◌∈◌, get_elem?, mem-get_elem?, Exec, ok, Returns, Eq, ◌==◌, Bool-cases, Option-cases,
}
use sternhamla_server.Player.{Player, player1, player2, player_eq, player_beq_iff}
use sternhamla_server.Movement.{MovementIndices}
use sternhamla_server.Game.{
  Game, GameStatus, playing, Scores, status_scores, usize_limit, apply_movement_unchecked,
}
use sternhamla_server.Game.Invariant.{Inv, Played, apply_movement_unchecked-Played}
use sternhamla_server.Messages.{ServerBroadcast, ClientRequest}
use sternhamla_server.Server.{
  Effect, insert, remove, contains_key, MainThreadMessage, client_connected, client_reconnected,
  client_reconnected_handle, request_free_player, Server, ServerError, unknown_player, Run,
  returned, failed, waiting, crashed, spent, announced,
}
use sternhamla_server.Server.Turn.{
  TurnEvent, main, client, Turn, again, played, bail, crash, send_turn, reconnect, main_step,
  broadcast_move, choose, client_step, turn_step,
}
use sternhamla_server.Server.Moves.{Playable}

-- A choice of the player to move ended the turn, and the move was made and announced.
pub record Ended {Sender : Type 0} (movements : List MovementIndices) (current : Player) (g : Game)
    (r : Game × GameStatus) (out : List (Effect Sender)) : Type 0 where
  pub move : MovementIndices
  pub listed : move ∈ movements
  pub made : Played g current move.0 move.1 r
  pub before : List (Effect Sender)
  pub told :
      out ≡ before ++ announced (ServerBroadcast.movement current move (status_scores r.1)) ∷ []

module _ {Uuid Sender : Type 0} where
  -- Each player has a client or counts as disconnected, and not both.
  abbrev pub Paired : Server Uuid Sender → Type 0
  Paired s = (p : Player) → contains_key s.disconnected p ≡ not (contains_key s.clients_tx p)

  Paired-disconnect :
      (s : Server Uuid Sender) (p : Player)
      → Paired s
      → Paired (record s {
        clients_tx = remove s.clients_tx p;
        disconnected = insert s.disconnected p tt;
      })
  Paired-disconnect s player1 h player1 = refl
  Paired-disconnect s player1 h player2 = h player2
  Paired-disconnect s player2 h player1 = h player1
  Paired-disconnect s player2 h player2 = refl

  Paired-reconnect :
      (s : Server Uuid Sender) (p : Player) (tx : Sender)
      → Paired s
      → Paired (record s {
        disconnected = remove s.disconnected p;
        clients_tx = insert s.clients_tx p tx;
      })
  Paired-reconnect s player1 tx h player1 = refl
  Paired-reconnect s player1 tx h player2 = h player2
  Paired-reconnect s player2 tx h player1 = h player1
  Paired-reconnect s player2 tx h player2 = refl

  -- What a message does.
  abbrev pub Handled : List MovementIndices → Player → Game → Turn Uuid Sender → Type 0
  Handled movements current g (again s) = Paired s
  Handled movements current g (played g' status s) =
      Paired s × Ended movements current g (g', status) s.out
  Handled movements current g (bail x s) = Paired s × (x ≢ unknown_player)
  Handled movements current g crash = ⊥

  -- What a loop over messages does.
  abbrev pub Turned :
      List MovementIndices
      → Player
      → Game
      → Run Uuid Sender (TurnEvent Uuid Sender × Bool) (Game × GameStatus)
      → Type 0
  Turned movements current g (returned r s left) = Paired s × Ended movements current g r s.out
  Turned movements current g (failed x s) = Paired s × (x ≢ unknown_player)
  Turned movements current g (waiting s) = Paired s
  Turned movements current g crashed = ⊥
  Turned movements current g spent = ⊥

module _ (movements : List MovementIndices) (current : Player) (g : Game) (turns : ℕ)
    (scores : Scores) (inv : Inv g) (going : g.status ≡ playing current turns scores)
    (small : turns + 1 < usize_limit)
    (playable : (m : MovementIndices) → m ∈ movements → Playable g current m) where
  pub made-Played :
      (m : MovementIndices)
      → m ∈ movements
      → Returns (Played g current m.0 m.1) (apply_movement_unchecked {E = ServerError} g m)
  made-Played m at_m =
      apply_movement_unchecked-Played ServerError g m.0 m.1 current turns scores inv going
        (playable m at_m).0 (playable m at_m).1 small

  module _ {Uuid Sender : Type 0} ⦃e : Eq Uuid⦄ where
    send_turn-Handled :
        (sent : Bool) (tx : Sender) (s : Server Uuid Sender)
        → Paired s
        → Handled movements current g (send_turn sent tx movements s)
    send_turn-Handled true tx s h = h
    send_turn-Handled false tx s h = (h, λ x. cc)

    main_step-Handled :
        (sent : Bool) (m : MainThreadMessage Uuid Sender) (s : Server Uuid Sender)
        → Paired s
        → Handled movements current g (main_step sent movements current m s)
    unfolding main_step reconnect
    main_step-Handled sent (client_connected p u tx) s h = h
    main_step-Handled sent (client_reconnected_handle u) s h = h
    main_step-Handled sent request_free_player s h = h
    main_step-Handled sent (client_reconnected p tx) s h =
        elim (Bool-cases (contains_key s.disconnected p)) [
          | inr present ↦ rw present h
          | inl gone ↦ elim (Bool-cases (p == current)) [
            | inl mine ↦ rw (gone, mine) (send_turn-Handled sent tx _ (Paired-reconnect s p tx h))
            | inr other ↦ rw (gone, other) (Paired-reconnect s p tx h)
          ]
        ]

    broadcast_move-Handled :
        (heard : Bool) (m : MovementIndices) (s : Server Uuid Sender)
        → m ∈ movements
        → Paired s
        → (r : Exec ServerError (Game × GameStatus)) → Returns (Played g current m.0 m.1) r
        → Handled movements current g (broadcast_move heard current m s r)
    unfolding status_scores
    broadcast_move-Handled true m s at_m h (ok (g', status)) pl =
        (h, record { move = m; listed = at_m; made = pl; before = s.out; told = refl })
    broadcast_move-Handled false m s at_m h (ok (g', status)) pl = (h, λ x. cc)
    broadcast_move-Handled heard m s at_m h (Exec.err x) pl = absurd pl
    broadcast_move-Handled heard m s at_m h Exec.panic pl = absurd pl
    broadcast_move-Handled heard m s at_m h Exec.undefined pl = absurd pl
    broadcast_move-Handled heard m s at_m h Exec.stuck pl = absurd pl

    choose-Handled :
        (heard : Bool) (p : Player) (n : ℕ) (s : Server Uuid Sender)
        → Paired s
        → Handled movements current g (choose heard movements current g p n s)
    unfolding choose
    choose-Handled heard p n s h = elim (Bool-cases (p == current)) [
      | inr other ↦ rw other h
      | inl mine ↦ elim (Option-cases (get_elem? movements n)) [
        | inl outside ↦ rw (mine, outside) h
        | inr (m, found) ↦
            rw (mine, found, (player_beq_iff p current).0 mine)
              (broadcast_move-Handled heard m s (mem-get_elem? movements n m found) h _
                (made-Played m (mem-get_elem? movements n m found)))
      ]
    ]

    pub turn_step-Handled :
        (ev : TurnEvent Uuid Sender × Bool) (s : Server Uuid Sender)
        → Paired s
        → Handled movements current g (turn_step movements current g ev s)
    unfolding turn_step client_step
    turn_step-Handled (main none, sent) s h = (h, λ x. cc)
    turn_step-Handled (main (some m), sent) s h = main_step-Handled sent m s h
    turn_step-Handled (client none, sent) s h = (h, λ x. cc)
    turn_step-Handled (client (some m), sent) s h = requested m.request
      where
        requested :
            (r : ClientRequest)
            → Handled movements current g
                (client_step sent movements current g (record { player = m.player; request = r }) s)
        requested ClientRequest.disconnect = Paired-disconnect s m.player h
        requested (ClientRequest.choice n) = choose-Handled sent m.player n s h
