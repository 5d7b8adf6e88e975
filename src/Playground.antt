-- ===== src/Playground.antt =====
-- src/bin/playground.rs: two agents that play a game against each other. What they draw from the
-- `rand` crate and how the `itertools` crate sorts are parameters; printing is left out.
pub mod Outcome
use package.sternhamla_server.Prelude.{
  ℕ, zero, suc, Bool, true, false, not, Option, none, some, List, [], ◌∷◌, map, contains, get_elem?,
  Exec, ok, err, panic, undefined, stuck, ◌>>=◌, some_unchecked, try_map, ltb, leb, if◌then◌else◌,
}
use package.sternhamla_server.Player.{Player, player1, player2, player_eq}
use package.sternhamla_server.Board.{Board}
use package.sternhamla_server.Board.Hex.{HexIdx, idx_eq, hex_distance}
use package.sternhamla_server.Board.Lut.{player1_starting_positions, player2_starting_positions}
use package.sternhamla_server.Movement.{
  Movement, MovementIndices, to_indices, iter_player_movements,
}
use package.sternhamla_server.Game.{
  Game, GameStatus, playing, finished, new_game, apply_movement_unchecked,
}

-- `IteratorRandom::choose`, `IndexedRandom::choose`, `sorted_unstable_by_key` and `Poisson::sample`
-- in one turn.
pub record Chance : Type 0 where
  pub choose_movement : List Movement → Option Movement
  pub choose : List MovementIndices → Option MovementIndices
  pub sorted_unstable_by_key :
      (MovementIndices → Option ℕ) → List MovementIndices → List MovementIndices
  pub sample : ℕ

abbrev pub min_of : List ℕ → Option ℕ
min_of [] = none
min_of (x ∷ xs) = elim (min_of xs) [ none ↦ some x | some y ↦ some (if leb x y then x else y) ]

-- `AgentMin::new`, and its goal.
abbrev pub agent_goal : Player → List HexIdx
agent_goal player1 = player2_starting_positions
agent_goal player2 = player1_starting_positions

abbrev pub outside : List HexIdx → List MovementIndices → List MovementIndices
outside goal [] = []
outside goal (m ∷ ms) = let rest = outside goal ms in if contains goal m.0 then rest else m ∷ rest

abbrev pub goal_distance : List HexIdx → MovementIndices → Option ℕ
goal_distance goal movement = min_of (map (λ idx. hex_distance movement.1 idx) goal)

module _ {E : Type 0} where
  -- `AgentBrownian::select_movement`.
  unfoldable pub select_brownian : Chance → Player → Board Player → Exec E MovementIndices
  unfolding iter_player_movements to_indices
  select_brownian c player b = do
    movements ← iter_player_movements b player
    movement ← some_unchecked (c.choose_movement movements)
    to_indices movement

  -- The end of `AgentMin::select_movement`: `nth`, or any movement.
  unfoldable pub pick :
      Chance → List MovementIndices → List MovementIndices → Exec E MovementIndices
  pick c sorted movements = elim (get_elem? sorted c.sample) [
    | some movement ↦ ok movement
    | none ↦ some_unchecked (c.choose movements)
  ]

  -- `AgentMin::select_movement`.
  unfoldable pub select_min : Chance → Player → Board Player → Exec E MovementIndices
  unfolding pick iter_player_movements try_map to_indices
  select_min c player b = do
    found ← iter_player_movements b player
    movements ← try_map to_indices found
    let goal = agent_goal player
    pick c (c.sorted_unstable_by_key (goal_distance goal) (outside goal movements)) movements

  -- Player 1 is an `AgentMin`, player 2 an `AgentBrownian`.
  unfoldable pub select_movement : Chance → Player → Board Player → Exec E MovementIndices
  unfolding select_min select_brownian
  select_movement c player1 b = select_min c player1 b
  select_movement c player2 b = select_brownian c player2 b

  -- One round of the loop of `main`, over those that follow. `chance n` is what is drawn in turn n.
  unfoldable pub play_round : (ℕ → Chance) → (Game → Exec E Game) → Game → GameStatus → Exec E Game
  unfolding select_movement apply_movement_unchecked
  play_round chance later g (finished _ _ _) = ok g
  play_round chance later g (playing player turns _) =
      if ltb turns 1024
      then (select_movement (chance turns) player g.board >>= λ movement.
          apply_movement_unchecked g movement >>= λ r. later r.0)
      else ok g

  unfoldable pub play : (ℕ → Chance) → ℕ → Game → Exec E Game
  unfolding play_round
  play chance zero g = stuck
  play chance (suc fuel) g = play_round chance (λ g'. play chance fuel g') g g.status

  -- `main`: no more than 1024 turns are played, so one round more is enough.
  unfoldable pub playground : (ℕ → Chance) → Exec E Game
  unfolding new_game play
  playground chance = new_game >>= λ g. play chance 1025 g
