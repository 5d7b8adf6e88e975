-- ===== src/Tests/Games.antt =====
-- The theorems on games, at the first move.
use sternhamla_server.Prelude.{ℕ, ◌≡◌, refl, inl, some, none, ok, Returns, ◌>>=◌, arith}
use sternhamla_server.Player.{Player, player1, player2, player_eq}
use sternhamla_server.Board.Hex.{HexIdx}
use sternhamla_server.Board.Lut.{
  valid_positions, player1_starting_positions, player2_starting_positions,
}
use sternhamla_server.Board.Setup.{start_cell}
use sternhamla_server.Movement.{to_indices}
use sternhamla_server.Movement.Validate.{Acceptable}
use sternhamla_server.Game.{
  GameError, playing, Scores, status_turns, leave_goal, enter_goal, apply_movement,
  apply_movement_unchecked,
}
use sternhamla_server.Game.Count.{counted, scores-Plays}
use sternhamla_server.Game.Invariant.{Inv, Played, apply_movement_unchecked-Played}
use sternhamla_server.Game.Apply.{apply_movement-Accepted, apply_movement-Played}
use sternhamla_server.Game.Reach.{Reached, Reached-Inv}
use sternhamla_server.Tests.{
  start, game, game_inv, game_going, first_move, at_start, free_end, after,
}

apply_movement_unchecked-Played_example :
    Returns
      (Played game player1 (12, 4) (11, 4))
      (apply_movement_unchecked {E = GameError} game ((12, 4), (11, 4)))
apply_movement_unchecked-Played_example =
    apply_movement_unchecked-Played GameError game (12, 4) (11, 4) player1 0 (0, 0) game_inv
      game_going at_start (inl free_end) (omega arith)

apply_movement-Played_example :
    Returns
      (λ r.
        (from to : HexIdx) × (to_indices {E = GameError} first_move ≡ ok (from, to))
        × Played game player1 from to r)
      (apply_movement game first_move)
apply_movement-Played_example =
    apply_movement-Played game first_move player1 0 (0, 0) game_inv game_going (at_start, free_end)
      (omega arith)

apply_movement-Accepted_example :
    (p : Player) × (turns : ℕ) × (scores : Scores) × (game.status ≡ playing p turns scores)
    × Acceptable game.board first_move p
apply_movement-Accepted_example = apply_movement-Accepted game first_move after.0 game_inv after.1

other_here : start_cell (4, 12) ≡ some (some player2)
unfolding player1_starting_positions player2_starting_positions
other_here = refl

other_free : start_cell (5, 11) ≡ some none
unfolding player1_starting_positions player2_starting_positions valid_positions
other_free = refl

scores-Plays_example :
    (leave_goal {E = GameError} player1 after.2.0 (counted game.board) >>= λ left.
    enter_goal player1 after.2.1 left)
    ≡ ok (counted after.0.0.board)
scores-Plays_example =
    scores-Plays GameError game.board after.2.0 after.2.1 player1 after.0.0.board after.2.3.plays

Reached-Inv_example : Inv after.0.0 × (status_turns after.0.0.status ≡ 1)
Reached-Inv_example =
    Reached-Inv 1 after.0.0
      (Reached.step 0 game after.0.0 first_move after.0.1 (Reached.start game start.1) after.1)
      (omega arith)
