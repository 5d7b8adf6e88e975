-- ===== src/Display.antt =====
-- The texts of a board, a game and a movement: `Display` in src/sternhalma/board/mod.rs,
-- src/sternhalma/board/player.rs and src/sternhalma/mod.rs, and `print_movement` in
-- src/sternhalma/board/movement.rs. A text is the list of its code points. How the standard library
-- writes a number is a parameter.
pub mod Cells
use Prim.Native.Char.{code}
use Prim.Native.String.{String}
use package.sternhamla_server.Prelude.{
  ℕ, zero, suc, Bool, true, false, Option, none, some, List, [], ◌∷◌, ◌++◌, replicate, Exec, ok,
  ◌>>=◌, flat_map, ◌==◌, if◌then◌else◌,
}
use package.sternhamla_server.Player.{Player, player1, player2}
use package.sternhamla_server.Board.{Board, Position, index}
use package.sternhamla_server.Board.Hex.{HexIdx, idx_eq, board_length}
use package.sternhamla_server.Movement.{Movement, Movement_contains, to_indices}
use package.sternhamla_server.Game.{Game, GameStatus, playing, finished, Scores}

abbrev pub Text : Type 0
Text = List ℕ

abbrev pub codes : String → Text
codes String.[] = []
codes (String.◌∷◌ c s) = code c ∷ codes s

-- `0..n`.
abbrev pub range_from : ℕ → ℕ → List ℕ
range_from i zero = []
range_from i (suc n) = i ∷ range_from (suc i) n

abbrev pub coordinates : List ℕ
coordinates = range_from 0 board_length

-- Four tags, which no terminal shows, and three spaces.
abbrev pub no_cell : Text
no_cell = 917536 ∷ 917536 ∷ 917536 ∷ 917536 ∷ codes "   "

abbrev pub piece_char : Player → Text
piece_char player1 = codes "🔵"
piece_char player2 = codes "🔴"

abbrev pub position_text : Position Player → Text
position_text none = no_cell
position_text (some none) = codes "⚫ "
position_text (some (some player)) = piece_char player ++ codes " "

-- The two loops, over the text of a cell.
unfoldable pub board_line : {E : Type 0} → (HexIdx → Exec E Text) → ℕ → Exec E Text
unfolding flat_map
board_line cell_text i = flat_map (λ j. cell_text (i, j)) coordinates >>= λ line.
    ok (replicate i 32 ++ line ++ codes "\n")

unfoldable pub board_lines : {E : Type 0} → (HexIdx → Exec E Text) → Exec E Text
unfolding flat_map board_line
board_lines cell_text = flat_map (board_line cell_text) coordinates

unfoldable pub cell_text : {E : Type 0} → Board Player → HexIdx → Exec E Text
unfolding index
cell_text b idx = index b idx >>= λ pos. ok (position_text pos)

-- `Display for Board<Player>`.
unfoldable pub display_board : {E : Type 0} → Board Player → Exec E Text
unfolding board_lines cell_text
display_board b = board_lines (cell_text b)

-- `Display for Player`.
abbrev pub player_text : Player → Text
player_text player1 = codes "Player 1 (" ++ piece_char player1 ++ codes ")"
player_text player2 = codes "Player 2 (" ++ piece_char player2 ++ codes ")"

-- `print_movement`. The text of a piece that the movement leaves alone is that of its player.
abbrev pub marked_text : Bool → Bool → Position Player → Text
marked_text true last none = no_cell
marked_text true true (some none) = codes "🟡 "
marked_text true false (some none) = codes "🟠 "
marked_text true last (some (some player1)) = codes "🟣 "
marked_text true last (some (some player2)) = codes "🟤 "
marked_text false last none = no_cell
marked_text false last (some none) = codes "⚫ "
marked_text false last (some (some piece)) = player_text piece ++ codes " "

unfoldable pub print_movement : {E : Type 0} → Board Player → Movement → Exec E Text
unfolding board_lines index to_indices Movement_contains
print_movement b movement = do
  (from, to) ← to_indices movement
  board_lines (λ idx.
      index b idx >>= λ pos. ok (marked_text (Movement_contains movement idx) (idx == to) pos))

module _ (decimal : ℕ → Text) where
  -- `{scores:?}`.
  abbrev pub scores_text : Scores → Text
  scores_text (s1, s2) = codes "[" ++ decimal s1 ++ codes ", " ++ decimal s2 ++ codes "]"

  -- `Display for GameStatus`.
  abbrev pub status_text : GameStatus → Text
  status_text (playing player turns scores) =
      codes "Playing: "
      ++ player_text player
      ++ codes " | Turn: "
      ++ decimal turns
      ++ codes " | Scores: "
      ++ scores_text scores
  status_text (finished winner total_turns scores) =
      codes "Winner: "
      ++ player_text winner
      ++ codes " | Total turns: "
      ++ decimal total_turns
      ++ codes " | Scores: "
      ++ scores_text scores

  -- `Display for Game`.
  unfoldable pub display_game : {E : Type 0} → Game → Exec E Text
  unfolding display_board
  display_game g = display_board g.board >>= λ text. ok (text ++ status_text g.status)
