-- ===== src/Server/Choosing.antt =====
-- src/server/mod.rs, `turn_loop`: the choice that ends a turn.
use sternhamla_server.Prelude.{
  ◌⊎◌, ℕ, ◌+◌, ◌<◌, ◌≡◌, inl, inr, refl, Bool, true, false, some, none, List, [], ◌∷◌, ◌∈◌, All,
  length, get_elem?, get_elem?_total, mem-get_elem?, ok, Returns-elim, Eq, ◌==◌, Bool-cases,
  Option-cases,
}
use sternhamla_server.Player.{Player, player_eq, player_beq_iff}
use sternhamla_server.Movement.{MovementIndices}
use sternhamla_server.Game.{
  Game, GameStatus, playing, Scores, status_scores, usize_limit, apply_movement_unchecked,
}
use sternhamla_server.Game.Invariant.{Inv, Played}
use sternhamla_server.Messages.{ServerBroadcast, ClientRequest}
use sternhamla_server.Server.{
  get, contains_key, client_connected, client_reconnected, client_reconnected_handle,
  request_free_player, MainThreadMessage, Server, ServerError, Run, returned, failed, waiting,
  crashed, spent, announced, emit,
}
use sternhamla_server.Server.{not_broadcast}
use sternhamla_server.Server.Turn.{
  TurnEvent, main, client, Turn, again, played, bail, crash, main_step, reconnect, choose,
  client_step, turn_step, turn_loop, open_turn,
}
use sternhamla_server.Server.Moves.{Playable}
use sternhamla_server.Server.Steps.{Paired, Ended, Handled, turn_step-Handled, made-Played}

module _ {Uuid Sender : Type 0} where
  -- A message from an open channel, and what its handler sends arrives.
  abbrev pub Delivered : TurnEvent Uuid Sender × Bool → Type 0
  Delivered (main (some m), true) = Unit
  Delivered (client (some m), true) = Unit
  Delivered (main none, sent) = ⊥
  Delivered (client none, sent) = ⊥
  Delivered (main (some m), false) = ⊥
  Delivered (client (some m), false) = ⊥

  abbrev pub chosen : Player → ℕ → TurnEvent Uuid Sender × Bool
  chosen p n = (client (some (record { player = p; request = ClientRequest.choice n })), true)

  -- The same choice, where no task listens to the broadcast of the move.
  abbrev pub unheard : Player → ℕ → TurnEvent Uuid Sender × Bool
  unheard p n = (client (some (record { player = p; request = ClientRequest.choice n })), false)

  -- The turn goes on or is over.
  Kept : Turn Uuid Sender → Type 0
  Kept (again s) = Unit
  Kept (played g status s) = Unit
  Kept (bail x s) = ⊥
  Kept crash = ⊥

  -- A move of the list was made, and announced last.
  abbrev pub Ends :
      List MovementIndices
      → Player
      → Game
      → Run Uuid Sender (TurnEvent Uuid Sender × Bool) (Game × GameStatus)
      → Type 0
  Ends movements current g (returned r s left) = Paired s × Ended movements current g r s.out
  Ends movements current g (failed x s) = ⊥
  Ends movements current g (waiting s) = ⊥
  Ends movements current g crashed = ⊥
  Ends movements current g spent = ⊥

module _ (movements : List MovementIndices) (current : Player) (g : Game) (turns : ℕ)
    (scores : Scores) (inv : Inv g) (going : g.status ≡ playing current turns scores)
    (small : turns + 1 < usize_limit)
    (playable : (m : MovementIndices) → m ∈ movements → Playable g current m) where
  play :
      (n : ℕ) (m : MovementIndices)
      → get_elem? movements n ≡ some m
      → (r : Game × GameStatus) × (apply_movement_unchecked {E = ServerError} g m ≡ ok r)
        × Played g current m.0 m.1 r
  play n m found = Returns-elim (Played g current m.0 m.1) (apply_movement_unchecked g m) (
      made-Played movements current g turns scores inv going small playable m
        (mem-get_elem? movements n m found))

  module _ {Uuid Sender : Type 0} ⦃e : Eq Uuid⦄ where
    -- The choice of a listed move by the player to move.
    pub choose-played :
        (n : ℕ) (m : MovementIndices) (s : Server Uuid Sender)
        → get_elem? movements n ≡ some m
        → (g' : Game) × (status : GameStatus) × (turn_step movements current g (chosen current n) s
            ≡ played g' status
                (emit s (announced (ServerBroadcast.movement current m (status_scores status)))))
          × Played g current m.0 m.1 (g', status)
    unfolding turn_step client_step choose
    choose-played n m s found =
        let (r, ran, made) = play n m found in
        (r.0, r.1, rw ((player_beq_iff current current).1 refl, found, ran) refl, made)

    pub choose-unheard :
        (n : ℕ) (m : MovementIndices) (s : Server Uuid Sender)
        → get_elem? movements n ≡ some m
        → turn_step movements current g (unheard current n) s ≡ bail not_broadcast s
    unfolding turn_step client_step choose
    choose-unheard n m s found =
        let (r, ran, made) = play n m found in
        rw ((player_beq_iff current current).1 refl, found, ran) refl

    choose-Kept :
        (p : Player) (n : ℕ) (s : Server Uuid Sender) → Kept (choose true movements current g p n s)
    unfolding choose Kept
    choose-Kept p n s = elim (Bool-cases (p == current)) [
      | inr other ↦ rw other tt
      | inl mine ↦ elim (Option-cases (get_elem? movements n)) [
        | inl outside ↦ rw (mine, outside) tt
        | inr (m, found) ↦ let (r, ran, made) = play n m found in rw (mine, found, ran) tt
      ]
    ]

    main_step-Kept :
        (m : MainThreadMessage Uuid Sender) (s : Server Uuid Sender)
        → Kept (main_step true movements current m s)
    unfolding main_step Kept reconnect
    main_step-Kept (client_connected p u tx) s = tt
    main_step-Kept (client_reconnected_handle u) s = tt
    main_step-Kept request_free_player s = tt
    main_step-Kept (client_reconnected p tx) s = elim (Bool-cases (contains_key s.disconnected p)) [
      | inr present ↦ rw present tt
      | inl gone ↦ elim (Bool-cases (p == current)) [
        | inl mine ↦ rw (gone, mine) tt
        | inr other ↦ rw (gone, other) tt
      ]
    ]

    turn_step-Kept :
        (ev : TurnEvent Uuid Sender × Bool) (s : Server Uuid Sender)
        → Delivered ev
        → Kept (turn_step movements current g ev s)
    unfolding turn_step client_step Kept
    turn_step-Kept (main (some m), true) s d = main_step-Kept m s
    turn_step-Kept (client (some m), true) s d = requested m.request
      where
        requested :
            (r : ClientRequest)
            → Kept
                (client_step true movements current g (record { player = m.player; request = r }) s)
        requested ClientRequest.disconnect = tt
        requested (ClientRequest.choice n) = choose-Kept m.player n s
    turn_step-Kept (main none, sent) s d = absurd d
    turn_step-Kept (client none, sent) s d = absurd d
    turn_step-Kept (main (some m), false) s d = absurd d
    turn_step-Kept (client (some m), false) s d = absurd d

    then-Ends :
        (evs : List (TurnEvent Uuid Sender × Bool))
        (k : Server Uuid Sender
          → Run Uuid Sender (TurnEvent Uuid Sender × Bool) (Game × GameStatus))
        → (t : Turn Uuid Sender) → Kept t
        → Handled movements current g t
        → ((s : Server Uuid Sender) → t ≡ again s → Paired s → Ends movements current g (k s))
        → Ends movements current g (elim t [
          | again s' ↦ k s'
          | played g' status s' ↦ returned (g', status) s' evs
          | bail x s' ↦ failed x s'
          | crash ↦ crashed
        ])
    unfolding Kept
    then-Ends evs k (again s) kept h next = next s refl h
    then-Ends evs k (played g' status s) kept h next = h
    then-Ends evs k (bail x s) kept h next = absurd kept
    then-Ends evs k crash kept h next = absurd kept

    turn_loop-Ends :
        (n : ℕ)
        → n < length movements
        → (evs : List (TurnEvent Uuid Sender × Bool)) (s : Server Uuid Sender) → All Delivered evs
        → chosen current n ∈ evs
        → Paired s
        → Ends movements current g (turn_loop movements current g evs s)
    unfolding turn_loop
    turn_loop-Ends n listed [] s open_channels there h = absurd there
    turn_loop-Ends n listed (ev ∷ evs) s open_channels there h =
        then-Ends evs (turn_loop movements current g evs) (turn_step movements current g ev s)
          (turn_step-Kept ev s open_channels.0)
          (turn_step-Handled movements current g turns scores inv going small playable ev s h)
          (λ s' same h'. elim there [
            | inr later ↦ turn_loop-Ends n listed evs s' open_channels.1 later h'
            | inl here ↦
                let (m, found) = get_elem?_total movements n listed in
                let (g', status, ended, made) = choose-played n m s found in
                absurd (
                  again-played
                    {s'' = emit s
                      (announced (ServerBroadcast.movement current m (status_scores status)))}
                    {g' = g'} {status = status} (turn_step movements current g ev s) same
                    (rw (← here) ended))
          ])
      where
        again-played :
            {s' s'' : Server Uuid Sender} {g' : Game} {status : GameStatus} (t : Turn Uuid Sender)
            → t ≡ again s'
            → t ≡ played g' status s''
            → ⊥
        again-played t h g = cc

    pub opened-Ends :
        (sent : Bool) (n : ℕ)
        → n < length movements
        → (evs : List (TurnEvent Uuid Sender × Bool)) (s : Server Uuid Sender) → All Delivered evs
        → chosen current n ∈ evs
        → Paired s
        → (sent ≡ true) ⊎ (get s.clients_tx current ≡ none)
        → Ends movements current g (elim (open_turn sent movements current s) [
          | again s' ↦ turn_loop movements current g evs s'
          | played g' status s' ↦ crashed
          | bail x s' ↦ failed x s'
          | crash ↦ crashed
        ])
    unfolding open_turn
    opened-Ends sent n listed evs s open_channels there h (inr gone) =
        rw (h current, gone) (turn_loop-Ends n listed evs s open_channels there h)
    opened-Ends sent n listed evs s open_channels there h (inl goes) =
        elim (Option-cases (get s.clients_tx current)) [
          | inl gone ↦ rw (h current, gone) (turn_loop-Ends n listed evs s open_channels there h)
          | inr (tx, present) ↦
              rw (h current, present, goes) (turn_loop-Ends n listed evs _ open_channels there h)
        ]
