-- ===== src/Game/Start.antt =====
-- src/sternhalma/mod.rs, `Game::new`: the game before the first turn.
use sternhamla_server.Prelude.{
  ℕ, ◌+◌, ◌≡◌, refl, sym, ◌∙◌, List, [], ◌∷◌, length, Returns, Returns-bind, if◌then◌else◌, arith,
}
use sternhamla_server.Player.{Player, player1, player2, player_eq}
use sternhamla_server.Board.{Board, goal_indices, new}
use sternhamla_server.Board.Hex.{HexIdx}
use sternhamla_server.Board.Lut.{
  valid_positions, player1_starting_positions, player2_starting_positions,
}
use sternhamla_server.Board.Cells.{IsSquare, cell}
use sternhamla_server.Board.Setup.{start_cell, new-start_cell}
use sternhamla_server.Board.Score.{
  held, start-IsStar, every-Wins, pieces-every, holds, pieces, Wins,
}
use sternhamla_server.Game.{playing, status_turns, new_game}
use sternhamla_server.Game.Count.{counted, goal_pieces}
use sternhamla_server.Game.Invariant.{Inv}
use sternhamla_server.Game.Count.{starts_length}

-- How many of the cells have a piece of `p` at the start.
tally : Player → List HexIdx → ℕ
tally p [] = 0
tally p (k ∷ ks) = (if held p (start_cell k) then 1 else 0) + tally p ks

pieces-tally :
    (b : Board Player)
    → ((k : HexIdx) → cell b k ≡ start_cell k)
    → (p : Player) (ks : List HexIdx) → pieces b p ks ≡ tally p ks
unfolding pieces tally holds
pieces-tally b h p [] = refl
pieces-tally b h p (k ∷ ks) = rw (h k, pieces-tally b h p ks)

tally_material : (p : Player) → tally p valid_positions ≡ 15
unfolding tally valid_positions player1_starting_positions player2_starting_positions
tally_material player1 = refl
tally_material player2 = refl

tally_goal : (p : Player) → tally p (goal_indices p) ≡ 0
unfolding tally valid_positions player1_starting_positions player2_starting_positions
tally_goal player1 = refl
tally_goal player2 = refl

-- At the start nobody holds a goal position, so nobody has won.
start_not_won :
    (b : Board Player) → ((k : HexIdx) → cell b k ≡ start_cell k) → (p : Player) → ¬ Wins b p
start_not_won b h player1 w =
    let full : pieces b player1 player2_starting_positions ≡ length player2_starting_positions =
      (pieces-every b player1 player2_starting_positions).1.1 ((every-Wins b player1).1 w) in
    omega (
      arith,
      pieces-tally b h player1 player2_starting_positions,
      tally_goal player1,
      starts_length,
      full,
    )
start_not_won b h player2 w =
    let full : pieces b player2 player1_starting_positions ≡ length player1_starting_positions =
      (pieces-every b player2 player1_starting_positions).1.1 ((every-Wins b player2).1 w) in
    omega (
      arith,
      pieces-tally b h player2 player1_starting_positions,
      tally_goal player2,
      starts_length,
      full,
    )

counted_start : (b : Board Player) → ((k : HexIdx) → cell b k ≡ start_cell k) → counted b ≡ (0, 0)
counted_start b h = λ i. (tallied player1 i, tallied player2 i)
  where
    tallied : (p : Player) → goal_pieces b p ≡ 0
    tallied p = pieces-tally b h p (goal_indices p) ∙ tally_goal p

-- `Game::new` returns a game that satisfies the invariant: the star, 15 pieces for each player,
-- nobody has won. It is the turn of player 1, no turn is counted, the scores are 0, the history
-- is empty, and the board is the start.
pub new_game-Inv :
    (E : Type 0)
    → Returns
        (λ g.
          Inv g
          × (g.status ≡ playing player1 0 (0, 0))
          × (g.history ≡ [])
          × ((k : HexIdx) → cell g.board k ≡ start_cell k))
        (new_game {E = E})
unfolding new_game status_turns
new_game-Inv E =
    Returns-bind (λ b. IsSquare b × ((k : HexIdx) → cell b k ≡ start_cell k)) _ new _
      (new-start_cell E)
      λ b h. (
        record {
          star = start-IsStar b h.0 h.1;
          material = λ p. pieces-tally b h.1 p valid_positions ∙ tally_material p;
          recorded = refl;
          status = (
            refl,
            sym (counted_start b h.1),
            start_not_won b h.1 player1,
            start_not_won b h.1 player2,
          );
        },
        refl,
        refl,
        h.1,
      )
