-- ===== src/Tests/Rules.antt =====
-- The theorems on the rules, for the first move of player 1.
use sternhamla_server.Prelude.{
  ℕ, ◌<◌, ◌≡◌, ◌↔◌, inl, inr, refl, ap, true, List, [], ◌∷◌, ◌∈◌, contains, length, ok, Returns,
  Returns-elim, nat_eq, arith,
}
use sternhamla_server.Player.{player1, player2}
use sternhamla_server.Board.Hex.{HexIdx, idx_eq}
use sternhamla_server.Board.Direction.{HexDirection}
use sternhamla_server.Board.Lut.{
  valid_positions, player1_starting_positions, player2_starting_positions,
}
use sternhamla_server.Movement.{MovementIndices}
use sternhamla_server.Game.{
  Game, GameStatus, GameError, playing, new_game, status_scores, apply_movement_unchecked,
}
use sternhamla_server.Game.Invariant.{Inv}
use sternhamla_server.Messages.{ServerBroadcast}
use sternhamla_server.Server.{announced, emit}
use sternhamla_server.Server.Turn.{available_moves, handle_turn, turn_step, played}
use sternhamla_server.Server.{not_broadcast}
use sternhamla_server.Server.Turn.{bail}
use sternhamla_server.Server.Choosing.{Ends, chosen, unheard}
use sternhamla_server.Server.Choices.{handle_turn-Ends, turn_step-RuleTurn}
use sternhamla_server.Rules.{Opening, home, MayMove, Turn}
use sternhamla_server.Rules.Star.{lut_geometry}
use sternhamla_server.Rules.Chains.{piece, pieces_on}
use sternhamla_server.Rules.Moves.{available_moves-MayMove}
use sternhamla_server.Rules.Refine.{match_of, new_game-Opening, apply_movement_unchecked-Turn}
use sternhamla_server.Client.{Outbox}
use sternhamla_server.Dialogue.{Dialogue, choice-Dialogue}
use sternhamla_server.Tests.{
  game, game_inv, game_going, at_start, free_end, unique, unique-same, server, server-Paired,
  events,
}

lut_geometry_example :
    (contains valid_positions (12, 4) ≡ true)
    × (contains player1_starting_positions (12, 4) ≡ true)
    × (contains player2_starting_positions (12, 4) ≡ home player2 (12, 4))
lut_geometry_example = lut_geometry (12, 4)

first_step : MayMove (pieces_on game.board) player1 (12, 4) (11, 4)
first_step = (
  ap piece at_start,
  (λ e. ground (arith, e)),
  inl (HexDirection.nw, (refl, refl), (refl, ap piece free_end)),
)

available_moves-MayMove_example :
    Returns
      (λ list. (a c : HexIdx) → ((a, c) ∈ list) ↔ MayMove (pieces_on game.board) player1 a c)
      (available_moves {E = GameError} unique game)
available_moves-MayMove_example =
    available_moves-MayMove unique unique-same GameError game player1 0 (0, 0) game_inv game_going

apply_movement_unchecked-Turn_example :
    Returns
      (λ r. Inv r.0 × (r.1 ≡ r.0.status) × Turn (match_of game) (12, 4) (11, 4) (match_of r.0))
      (apply_movement_unchecked {E = GameError} game ((12, 4), (11, 4)))
apply_movement_unchecked-Turn_example =
    apply_movement_unchecked-Turn GameError game player1 0 (0, 0) (12, 4) (11, 4) game_inv
      game_going (omega arith) first_step

-- The list of the first turn.
offer :
    (list : List MovementIndices) × (available_moves {E = Unit {0}} unique game ≡ ok list)
    × ((a c : HexIdx) → ((a, c) ∈ list) ↔ MayMove (pieces_on game.board) player1 a c)
offer = Returns-elim _ (available_moves unique game) (
    available_moves-MayMove unique unique-same (Unit {0}) game player1 0 (0, 0) game_inv game_going)

occupied : {A : Type 0} (xs : List A) (a : A) → a ∈ xs → 0 < length xs
occupied [] a h = absurd h
occupied (x ∷ xs) a h = omega arith

handle_turn-Ends_example :
    Ends offer.0 player1 game (handle_turn unique true player1 game events server)
handle_turn-Ends_example =
    handle_turn-Ends unique unique-same player1 game 0 (0, 0) game_inv game_going (omega arith) true
      events server offer.0 0 offer.1
      (occupied offer.0 ((12, 4), (11, 4)) ((offer.2 (12, 4) (11, 4)).1 first_step))
      (tt, (tt, (tt, (tt, tt)))) (inr (inr (inr (inl refl)))) server-Paired (inl refl)

turn_step-RuleTurn_example :
    (movements : List MovementIndices) × (n : ℕ) × (g' : Game) × (status : GameStatus)
    × (available_moves {E = Unit {0}} unique game ≡ ok movements)
    × (turn_step movements player1 game (chosen player1 n) server
        ≡ played g' status (
            emit server (
              announced
                (ServerBroadcast.movement player1 ((12, 4), (11, 4)) (status_scores status)))))
    × Inv g'
    × Turn (match_of game) (12, 4) (11, 4) (match_of g')
    × (turn_step movements player1 game (unheard player1 n) server ≡ bail not_broadcast server)
turn_step-RuleTurn_example =
    turn_step-RuleTurn unique unique-same player1 game 0 (0, 0) game_inv game_going (omega arith)
      (12, 4) (11, 4) first_step server

new_game-Opening_example :
    Returns
      (λ g. Inv g × Opening (match_of g) × (g.status ≡ playing player1 0 (0, 0)))
      (new_game {E = GameError})
new_game-Opening_example = new_game-Opening GameError

abbrev outbox : Outbox ℕ
outbox = record { remote = []; server = [] }

choice-Dialogue_example : Dialogue offer.0 player1 game 0 server outbox
choice-Dialogue_example =
    choice-Dialogue unique unique-same player1 game 0 (0, 0) game_inv game_going (omega arith)
      offer.0 0 server outbox offer.1
      (occupied offer.0 ((12, 4), (11, 4)) ((offer.2 (12, 4) (11, 4)).1 first_step))
