-- ===== src/Server/Turns.antt =====
-- `turn_loop` and `handle_turn`: a whole turn, whatever messages it receives.
use sternhamla_server.Prelude.{
  ℕ, ◌+◌, ◌<◌, ◌≡◌, ◌≢◌, ◌↔◌, refl, Bool, true, false, List, [], ◌∷◌, ◌∈◌, ok, Returns-elim, Eq,
  Option-cases, inl, inr,
}
use sternhamla_server.Player.{Player}
use sternhamla_server.Movement.{MovementIndices}
use sternhamla_server.Game.{Game, GameStatus, playing, Scores, usize_limit}
use sternhamla_server.Game.Invariant.{Inv}
use sternhamla_server.Server.{get, Server, Run, unknown_player, returned, failed, crashed}
use sternhamla_server.Server.Turn.{
  TurnEvent, Turn, again, played, bail, crash, turn_step, turn_loop, send_turn, open_turn,
  handle_turn, available_moves,
}
use sternhamla_server.Server.Moves.{Playable, available_moves-Playable}
use sternhamla_server.Server.Steps.{Paired, Handled, Turned, turn_step-Handled}

module _ (movements : List MovementIndices) (current : Player) (g : Game) (turns : ℕ)
    (scores : Scores) (inv : Inv g) (going : g.status ≡ playing current turns scores)
    (small : turns + 1 < usize_limit)
    (playable : (m : MovementIndices) → m ∈ movements → Playable g current m) {Uuid Sender : Type 0}
    ⦃e : Eq Uuid⦄ where
  then-Turned :
      (evs : List (TurnEvent Uuid Sender × Bool))
      (k : Server Uuid Sender → Run Uuid Sender (TurnEvent Uuid Sender × Bool) (Game × GameStatus))
      → ((s : Server Uuid Sender) → Paired s → Turned movements current g (k s))
      → (t : Turn Uuid Sender) → Handled movements current g t
      → Turned movements current g (elim t [
        | again s' ↦ k s'
        | played g' status s' ↦ returned (g', status) s' evs
        | bail x s' ↦ failed x s'
        | crash ↦ crashed
      ])
  then-Turned evs k next (again s') t = next s' t
  then-Turned evs k next (played g' status s') t = t
  then-Turned evs k next (bail x s') t = t
  then-Turned evs k next crash t = absurd t

  turn_loop-Turned :
      (evs : List (TurnEvent Uuid Sender × Bool)) (s : Server Uuid Sender)
      → Paired s
      → Turned movements current g (turn_loop movements current g evs s)
  unfolding turn_loop
  turn_loop-Turned [] s h = h
  turn_loop-Turned (ev ∷ evs) s h =
      then-Turned evs (turn_loop movements current g evs) (λ s' h'. turn_loop-Turned evs s' h')
        (turn_step movements current g ev s)
        (turn_step-Handled movements current g turns scores inv going small playable ev s h)

  -- The message that opens the turn either leaves the players as they were, or ends it.
  Opened : Turn Uuid Sender → Type 0
  Opened (again s) = Paired s
  Opened (played g' status s) = ⊥
  Opened (bail x s) = Paired s × (x ≢ unknown_player)
  Opened crash = ⊥

  send_turn-Opened :
      (sent : Bool) (tx : Sender) (s : Server Uuid Sender)
      → Paired s
      → Opened (send_turn sent tx movements s)
  unfolding Opened
  send_turn-Opened true tx s h = h
  send_turn-Opened false tx s h = (h, λ x. cc)

  open_turn-Opened :
      (sent : Bool) (s : Server Uuid Sender)
      → Paired s
      → Opened (open_turn sent movements current s)
  unfolding open_turn Opened
  open_turn-Opened sent s h = elim (Option-cases (get s.clients_tx current)) [
    | inl gone ↦ rw (h current, gone) h
    | inr (tx, there) ↦ rw (h current, there) (send_turn-Opened sent tx s h)
  ]

  Opened-Turned :
      (evs : List (TurnEvent Uuid Sender × Bool)) (t : Turn Uuid Sender)
      → Opened t
      → Turned movements current g (elim t [
        | again s' ↦ turn_loop movements current g evs s'
        | played g' status s' ↦ crashed
        | bail x s' ↦ failed x s'
        | crash ↦ crashed
      ])
  unfolding Opened
  Opened-Turned evs (again s) t = turn_loop-Turned evs s t
  Opened-Turned evs (played g' status s) t = absurd t
  Opened-Turned evs (bail x s) t = t
  Opened-Turned evs crash t = absurd t

  -- The turn once its moves are known.
  pub handle_turn-offered :
      (unique : List MovementIndices → List MovementIndices)
      → available_moves {E = Unit {0}} unique g ≡ ok movements
      → (sent : Bool) (evs : List (TurnEvent Uuid Sender × Bool)) (s : Server Uuid Sender)
      → handle_turn unique sent current g evs s ≡ (elim (open_turn sent movements current s) [
        | again s' ↦ turn_loop movements current g evs s'
        | played g' status s' ↦ crashed
        | bail x s' ↦ failed x s'
        | crash ↦ crashed
      ])
  unfolding handle_turn
  handle_turn-offered unique found sent evs s = rw (handle_turn, found) refl

  offered-Turned :
      (unique : List MovementIndices → List MovementIndices)
      → available_moves {E = Unit {0}} unique g ≡ ok movements
      → (sent : Bool) (evs : List (TurnEvent Uuid Sender × Bool)) (s : Server Uuid Sender)
      → Paired s
      → Turned movements current g (handle_turn unique sent current g evs s)
  offered-Turned unique found sent evs s h =
      rw (handle_turn-offered unique found sent evs s)
        (Opened-Turned evs (open_turn sent movements current s) (open_turn-Opened sent s h))

module _ (unique : List MovementIndices → List MovementIndices)
    (same_elements : (l : List MovementIndices) (m : MovementIndices) → (m ∈ unique l) ↔ (m ∈ l))
    {Uuid Sender : Type 0} ⦃e : Eq Uuid⦄ where
  -- In a game that satisfies the invariant and goes on, with a turn counter that stays below 2^64
  -- and with each player either present or marked as disconnected, the list of moves is found,
  -- and `handle_turn` never panics, whatever it receives. It returns only after a move from the
  -- list was made for the player to move and announced last; it never fails with the error about
  -- an unknown player; each player stays either present or disconnected. `unique` keeps the
  -- elements of a list and adds none.
  pub handle_turn-Turned :
      (sent : Bool) (current : Player) (g : Game) (turns : ℕ) (scores : Scores)
      → Inv g
      → g.status ≡ playing current turns scores
      → turns + 1 < usize_limit
      → (evs : List (TurnEvent Uuid Sender × Bool)) (s : Server Uuid Sender) → Paired s
      → (movements : List MovementIndices) × (available_moves {E = Unit {0}} unique g
          ≡ ok movements)
        × Turned movements current g (handle_turn unique sent current g evs s)
  handle_turn-Turned sent current g turns scores inv going small evs s h =
      let (movements, found, playable) = Returns-elim _ _ (
        available_moves-Playable unique same_elements g current turns scores inv going
          (Unit {0})) in
      (
        movements,
        found,
        offered-Turned movements current g turns scores inv going small playable unique found sent
            evs s h,
      )
