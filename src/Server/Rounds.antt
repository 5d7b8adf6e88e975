-- ===== src/Server/Rounds.antt =====
-- src/server/mod.rs, `game_loop`: how a game may end.
use sternhamla_server.Prelude.{
  ℕ, zero, suc, ◌+◌, ◌<◌, ◌≤◌, ◌≡◌, ◌≢◌, ◌↔◌, refl, ap, Bool, true, leb, List, ◌∈◌, length, Exec,
  ok, Returns, Returns-imp, Returns_of_ok, Eq, Bool-cases, inl, inr, arith,
}
use sternhamla_server.Player.{Player, player1}
use sternhamla_server.Movement.{MovementIndices}
use sternhamla_server.Game.{
  Game, GameStatus, playing, finished, GameResult, won, max_turns, Scores, usize_limit,
  status_turns, new_game,
}
use sternhamla_server.Game.Invariant.{Played}
use sternhamla_server.Server.{
  Server, Run, unknown_player, returned, failed, waiting, crashed, spent,
}
use sternhamla_server.Server.Turn.{TurnEvent, available_moves, handle_turn}
use sternhamla_server.Server.Steps.{Paired, Turned}
use sternhamla_server.Server.Turns.{handle_turn-Turned}
use sternhamla_server.Server.Loop.{Events, game_round, rounds, game_loop}
use sternhamla_server.Server.Progress.{Shorter, handle_turn-Shorter}
use sternhamla_server.Rules.{opening, turn}
use sternhamla_server.Rules.Moves.{available_moves-MayMove}
use sternhamla_server.Rules.Refine.{match_of, Good, Played-Turn, new_game-Opening}

-- What the result of a game says.
abbrev pub Concluded : ℕ → GameResult → Type 0
Concluded limit (won w turns scores) =
    (g : Game) × Good g × (g.status ≡ finished w turns scores) × (turns ≤ limit)
Concluded limit (max_turns turns scores) =
    (g : Game) × (p : Player) × Good g × (g.status ≡ playing p turns scores) × (turns ≡ limit)

module _ (unique : List MovementIndices → List MovementIndices)
    (same_elements : (l : List MovementIndices) (m : MovementIndices)
      → (m ∈ unique l) ↔ (m ∈ l)) where
  -- Every move of the list is a turn of the rules.
  still_Good :
      (g : Game) (p : Player) (turns : ℕ) (scores : Scores)
      → Good g
      → g.status ≡ playing p turns scores
      → (movements : List MovementIndices) → available_moves {E = Unit {0}} unique g ≡ ok movements
      → (m : MovementIndices) (r : Game × GameStatus) → m ∈ movements
      → Played g p m.0 m.1 r
      → Good r.0
  still_Good g p turns scores good going movements found m r listed made =
      let rules =
        Returns_of_ok _ _ movements found
          (available_moves-MayMove unique same_elements (Unit {0}) g p turns scores good.0 going) in
      (
        made.inv,
        turn (match_of g) (match_of r.0) m.0 m.1 good.1
            (Played-Turn g p turns scores m.0 m.1 r good.0 going ((rules m.0 m.1).0 listed) made),
      )

module _ {Uuid Sender : Type 0} where
  -- How the game loop may end.
  abbrev pub Closed : ℕ → Run Uuid Sender (TurnEvent Uuid Sender × Bool) GameResult → Type 0
  Closed limit (returned r s left) = Paired s × Concluded limit r
  Closed limit (failed x s) = Paired s × (x ≢ unknown_player)
  Closed limit (waiting s) = Paired s
  Closed limit crashed = ⊥
  Closed limit spent = ⊥

  next-Closed :
      (limit n : ℕ) (p : Player) (g : Game) (movements : List MovementIndices)
      (later : Game
        → Events Uuid Sender
        → Server Uuid Sender
        → Run Uuid Sender (TurnEvent Uuid Sender × Bool) GameResult)
      → ((g' : Game) (evs : Events Uuid Sender) (s : Server Uuid Sender)
          → Good g'
          → status_turns g'.status ≡ status_turns g.status + 1
          → Paired s
          → length evs < n
          → Closed limit (later g' evs s))
      → ((m : MovementIndices) (r : Game × GameStatus)
          → m ∈ movements
          → Played g p m.0 m.1 r
          → Good r.0)
      → (r : Run Uuid Sender (TurnEvent Uuid Sender × Bool) (Game × GameStatus))
      → Turned movements p g r
      → Shorter n r
      → Closed limit (elim r [
        | returned (g', status) s' evs' ↦ later g' evs' s'
        | failed x s' ↦ failed x s'
        | waiting s' ↦ waiting s'
        | crashed ↦ crashed
        | spent ↦ spent
      ])
  next-Closed limit n p g movements later next good (returned (g', status) s left) t h =
      next g' left s (good t.1.move (g', status) t.1.listed t.1.made) t.1.made.turns t.0 h
  next-Closed limit n p g movements later next good (failed x s) t h = t
  next-Closed limit n p g movements later next good (waiting s) t h = t
  next-Closed limit n p g movements later next good crashed t h = absurd t
  next-Closed limit n p g movements later next good spent t h = absurd t

module _ (unique : List MovementIndices → List MovementIndices)
    (same_elements : (l : List MovementIndices) (m : MovementIndices) → (m ∈ unique l) ↔ (m ∈ l))
    (reach : ℕ → Bool) (limit : ℕ) (small : limit < usize_limit) {Uuid Sender : Type 0}
    ⦃e : Eq Uuid⦄ where
  round-Closed :
      (n : ℕ) (g : Game) (evs : Events Uuid Sender) (s : Server Uuid Sender)
      (later : Game
        → Events Uuid Sender
        → Server Uuid Sender
        → Run Uuid Sender (TurnEvent Uuid Sender × Bool) GameResult)
      → ((g' : Game) (evs' : Events Uuid Sender) (s' : Server Uuid Sender)
          → Good g'
          → status_turns g'.status ≤ limit
          → Paired s'
          → length evs' < length evs
          → Closed limit (later g' evs' s'))
      → (st : GameStatus) → g.status ≡ st
      → Good g
      → status_turns g.status ≤ limit
      → Paired s
      → Closed limit (game_round unique reach limit later st g evs s)
  unfolding game_round status_turns
  round-Closed n g evs s later next (finished w turns scores) going good low h =
      (h, (g, good, going, omega (arith, low, ap status_turns going)))
  round-Closed n g evs s later next (playing p turns scores) going good low h =
      elim (Bool-cases (leb limit turns)) [
        | inl reached ↦
            rw reached (h, (g, p, good, going, at_limit turns scores p going low reached))
        | inr more ↦
            let below : turns + 1 ≤ limit = ground (arith, more) in
            let counted : status_turns g.status ≡ turns = ap status_turns going in
            let (movements, found, turned) =
              handle_turn-Turned unique same_elements (reach turns) p g turns scores good.0 going
                (omega (arith, below, small)) evs s h in
            rw more (
              next-Closed limit (length evs) p g movements later
                (λ g' evs' s' good' one h' shorter.
                  next g' evs' s' good' (omega (arith, one, counted, below)) h' shorter)
                (still_Good unique same_elements g p turns scores good going movements found)
                (handle_turn unique (reach turns) p g evs s) turned
                (handle_turn-Shorter unique (reach turns) p g evs s))
      ]
    where
      at_limit :
          (turns : ℕ) (scores : Scores) (p : Player)
          → g.status ≡ playing p turns scores
          → status_turns g.status ≤ limit
          → leb limit turns ≡ true
          → turns ≡ limit
      at_limit turns scores p going low reached =
          let counted : status_turns g.status ≡ turns = ap status_turns going in
          ground (arith, low, counted, reached)

  rounds-Closed :
      (fuel : ℕ) (g : Game) (evs : Events Uuid Sender) (s : Server Uuid Sender)
      → Good g
      → status_turns g.status ≤ limit
      → Paired s
      → length evs < fuel
      → Closed limit (rounds unique reach limit fuel g evs s)
  unfolding rounds
  rounds-Closed zero g evs s good low h enough = absurd (omega (arith, enough))
  rounds-Closed (suc fuel) g evs s good low h enough =
      round-Closed fuel g evs s (λ g' evs' s'. rounds unique reach limit fuel g' evs' s')
        (λ g' evs' s' good' low' h' shorter.
          rounds-Closed fuel g' evs' s' good' low' h' (omega (arith, shorter, enough)))
        g.status refl good low h

  started :
      (evs : Events Uuid Sender) (s : Server Uuid Sender)
      → Paired s
      → (r : Exec (Unit {0}) Game) → Returns (λ g. Good g × (g.status ≡ playing player1 0 (0, 0))) r
      → Closed limit
          (elim r [ ok g ↦ rounds unique reach limit (suc (length evs)) g evs s | _ ↦ crashed ])
  unfolding status_turns
  started evs s h (ok g) (good, fresh) =
      rounds-Closed (suc (length evs)) g evs s good (omega (arith, ap status_turns fresh)) h
        (omega arith)
  started evs s h (Exec.err x) n = absurd n
  started evs s h Exec.panic n = absurd n
  started evs s h Exec.undefined n = absurd n
  started evs s h Exec.stuck n = absurd n

  -- When each player either has a client or is marked as disconnected, `game_loop` never panics
  -- and one round more than there are messages is enough fuel. If it returns a winner, that is
  -- the result of a game that satisfies the invariant, that turns of the rules lead to from the
  -- opening, and that is finished with this winner, these turns, at most the limit, and these
  -- scores; if it returns `max_turns`, such a game goes on and its turns are the limit. `unique`
  -- keeps the elements of a list and adds none; the limit is below 2^64.
  pub game_loop-Closed :
      (evs : Events Uuid Sender) (s : Server Uuid Sender)
      → Paired s
      → Closed limit (game_loop unique reach limit evs s)
  unfolding game_loop
  game_loop-Closed evs s h = started evs s h new_game (
      Returns-imp _ _ new_game (λ g h. ((h.0, opening (match_of g) h.1), h.2))
        (new_game-Opening (Unit {0})))
