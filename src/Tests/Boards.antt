-- ===== src/Tests/Boards.antt =====
-- The theorems on boards and moves at the start of a game.
use sternhamla_server.Prelude.{◌<◌, ◌≡◌, ◌↔◌, refl, [], ◌∷◌, ◌∈◌, ok, Returns, arith}
use sternhamla_server.Player.{player1, player_eq}
use sternhamla_server.Board.{check_winner}
use sternhamla_server.Board.Hex.{HexIdx, radicand}
use sternhamla_server.Board.Score.{Verdict, check_winner-Verdict}
use sternhamla_server.Board.Direction.{ne}
use sternhamla_server.Board.Distance.{radicand-Toward}
use sternhamla_server.Movement.{
  Movement, MovementError, to_indices, collect_hop_paths_from, available_movements_from,
  validate_movement, apply_movement,
}
use sternhamla_server.Movement.Paths.{
  Extensions, unvisited, unvisited-le, collect_hop_paths_from-Extensions,
}
use sternhamla_server.Movement.Available.{Legal, available_movements_from-Legal}
use sternhamla_server.Movement.Validate.{Acceptable, validate_movement_iff}
use sternhamla_server.Movement.Apply.{Moved, apply_movement-Moved}
use sternhamla_server.Game.{GameError}
use sternhamla_server.Tests.{game, game_inv, first_move, at_start, free_end}

check_winner-Verdict_example :
    Returns (Verdict game.board) (check_winner {E = GameError} game.board)
check_winner-Verdict_example = check_winner-Verdict GameError game.board game_inv.star

few : unvisited 289 ((13, 4) ∷ (11, 4) ∷ []) < 290
few = omega (arith, unvisited-le 289 ((13, 4) ∷ (11, 4) ∷ []))

collect_hop_paths_from-Extensions_example :
    Returns
      (Extensions game.board ((13, 4) ∷ (11, 4) ∷ []))
      (collect_hop_paths_from {E = GameError} 290 game.board ((13, 4) ∷ (11, 4) ∷ []))
collect_hop_paths_from-Extensions_example =
    collect_hop_paths_from-Extensions game.board game_inv.star.square GameError 290
      ((13, 4) ∷ (11, 4) ∷ []) (11, 4) refl (omega arith, omega arith) few

available_movements_from-Legal_example :
    Returns
      (λ ms. (m : Movement) → (m ∈ ms) ↔ Legal game.board (12, 4) m)
      (available_movements_from {E = GameError} game.board (12, 4))
available_movements_from-Legal_example =
    available_movements_from-Legal game.board game_inv.star.square GameError (12, 4)
      (omega arith, omega arith)

validate_movement_iff_example :
    (validate_movement game.board first_move ≡ ok (first_move, player1))
    ↔ Acceptable game.board first_move player1
validate_movement_iff_example =
    validate_movement_iff game.board first_move player1 game_inv.star.square

valid : validate_movement game.board first_move ≡ ok (first_move, player1)
valid =
    (validate_movement_iff game.board first_move player1 game_inv.star.square).1
      (at_start, free_end)

apply_movement-Moved_example :
    Returns
      (λ b'.
        (from to : HexIdx) × (to_indices {E = MovementError} first_move ≡ ok (from, to))
        × Moved game.board from to player1 b')
      (apply_movement game.board first_move)
apply_movement-Moved_example =
    apply_movement-Moved game.board first_move player1 game_inv.star.square valid

radicand-Toward_example : radicand (12, 4) (11, 5) ≡ 3
radicand-Toward_example = radicand-Toward ne (12, 4) (11, 5) (refl, refl)
