-- ===== src/Game.antt =====
-- src/sternhalma/mod.rs: the state of a game, its status after a move, and the moves of a turn.
-- `usize` has 64 bits; its sums and differences panic when they leave the range.
pub mod Count
pub mod Invariant
pub mod Start
pub mod Apply
pub mod Available
pub mod Reach
use package.sternhamla_server.Prelude.{
  ℕ, ◌+◌, ◌-◌, ◌^◌, none, some, List, [], ◌∷◌, ◌++◌, contains, Exec, ok, err, panic, ◌>>=◌, map_err,
  ltb, leb, if◌then◌else◌, ◌==◌,
}
use package.sternhamla_server.Player.{Player, player1, player2, player_eq, opponent}
use package.sternhamla_server.Board.{Board, new, goal_indices, check_winner}
use package.sternhamla_server.Board.Hex.{HexIdx, idx_eq}
use package.sternhamla_server.Movement.{
  Movement, MovementError, MovementIndices, to_indices, iter_player_movements, validate_movement,
}
use package.sternhamla_server.Movement.{apply_movement_unchecked as move_piece}

abbrev pub usize_limit : ℕ
usize_limit = 2 ^ 64

unfoldable pub usize_add : {E : Type 0} → ℕ → ℕ → Exec E ℕ
usize_add a b = if ltb (a + b) usize_limit then ok (a + b) else panic

unfoldable pub usize_sub : {E : Type 0} → ℕ → ℕ → Exec E ℕ
usize_sub a b = if leb b a then ok (a - b) else panic

-- `[usize; PLAYER_COUNT]`, and an assignment to `scores[player as usize]`.
abbrev pub Scores : Type 0
Scores = ℕ × ℕ

abbrev pub score_of : Scores → Player → ℕ
score_of s player1 = s.0
score_of s player2 = s.1

abbrev pub with_score : Scores → Player → ℕ → Scores
with_score s player1 n = (n, s.1)
with_score s player2 n = (s.0, n)

pub data GameResult : Type 0 where
  won : Player → ℕ → Scores → GameResult
  max_turns : ℕ → Scores → GameResult

pub data GameStatus : Type 0 where
  playing : Player → ℕ → Scores → GameStatus
  finished : Player → ℕ → Scores → GameStatus

unfoldable pub status_turns : GameStatus → ℕ
status_turns (playing _ turns _) = turns
status_turns (finished _ total_turns _) = total_turns

unfoldable pub status_scores : GameStatus → Scores
status_scores (playing _ _ scores) = scores
status_scores (finished _ _ scores) = scores

pub record Game : Type 0 where
  pub board : Board Player
  pub status : GameStatus
  pub history : List MovementIndices

pub data GameError : Type 0 where
  movement_error : MovementError → GameError
  out_of_turn game_finished : GameError

unfoldable pub new_game : {E : Type 0} → Exec E Game
unfolding new
new_game = do b ← new; ok (record { board = b; status = playing player1 0 (0, 0); history = [] })

-- The two updates of the score of the player that moves.
unfoldable pub leave_goal : {E : Type 0} → Player → HexIdx → Scores → Exec E Scores
unfolding usize_sub
leave_goal player from scores =
    if contains (goal_indices player) from
    then (usize_sub (score_of scores player) 1 >>= λ n. ok (with_score scores player n))
    else ok scores

unfoldable pub enter_goal : {E : Type 0} → Player → HexIdx → Scores → Exec E Scores
unfolding usize_add
enter_goal player to scores =
    if contains (goal_indices player) to
    then (usize_add (score_of scores player) 1 >>= λ n. ok (with_score scores player n))
    else ok scores

unfoldable pub status_after :
    {E : Type 0} → GameStatus → Board Player → MovementIndices → Exec E GameStatus
unfolding leave_goal enter_goal check_winner usize_add opponent
status_after (finished winner turns scores) b m = ok (finished winner turns scores)
status_after (playing player turns scores) b (from, to) = do
  left ← leave_goal player from scores
  entered ← enter_goal player to left
  winner ← check_winner b
  total_turns ← usize_add turns 1
  ok (elim winner [
    | some p ↦ finished p total_turns entered
    | none ↦ playing (opponent player) total_turns entered
  ])

unfoldable pub next_status : {E : Type 0} → Game → MovementIndices → Exec E GameStatus
unfolding status_after
next_status g m = status_after g.status g.board m

-- A finished game meets `todo!()`.
abbrev pub moves_at : {E : Type 0} → GameStatus → Board Player → Exec E (List Movement)
moves_at (finished _ _ _) b = panic
moves_at (playing player _ _) b = iter_player_movements b player

unfoldable pub iter_available_moves : {E : Type 0} → Game → Exec E (List Movement)
unfolding iter_player_movements
iter_available_moves g = moves_at g.status g.board

-- Returns the game that it changes, and the new status.
unfoldable pub apply_movement_unchecked :
    {E : Type 0} → Game → MovementIndices → Exec E (Game × GameStatus)
unfolding move_piece next_status
apply_movement_unchecked g m = do
  b ← move_piece g.board m
  let moved = record g { board = b; history = g.history ++ m ∷ [] }
  status ← next_status moved m
  ok (record moved { status = status }, status)

abbrev pub apply_at : GameStatus → Game → Movement → Exec GameError (Game × GameStatus)
apply_at (finished _ _ _) g m = err game_finished
apply_at (playing current_player _ _) g m = do
  (movement, player) ← map_err movement_error (validate_movement g.board m)
  if player == current_player
      then (to_indices movement >>= λ indices. apply_movement_unchecked g indices)
      else err out_of_turn

-- Every check stands before the first change, so an error leaves the game as it was.
unfoldable pub apply_movement : Game → Movement → Exec GameError (Game × GameStatus)
unfolding validate_movement to_indices apply_movement_unchecked
apply_movement g m = apply_at g.status g m
