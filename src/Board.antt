-- ===== src/Board.antt =====
-- src/sternhalma/board/mod.rs: the grid of cells, pieces on it, the start, winner and scores. The
-- build is the one with debug assertions: an index outside the square panics.
pub mod Hex
pub mod Lut
pub mod Cells
pub mod Setup
pub mod Score
pub mod Pieces
pub mod Direction
pub mod Neighbours
pub mod Distance
use package.sternhamla_server.Prelude.{
  ℕ, suc, ◌+◌, ◌*◌, ◌/◌, ◌%◌, ◌≡◌, Bool, true, false, ◌&&◌, Option, none, some, List, [], ◌∷◌, map,
  length, get_elem?, set, replicate, find, Exec, ok, err, panic, undefined, stuck, Opt, nothing,
  ◌>>=◌, map_err, ok_or, some_unchecked, ok_unchecked, filter_map, Eq, ◌==◌, ltb, if◌then◌else◌,
}
use package.sternhamla_server.Player.{Player, player1, player2, player_eq, variants}
use Hex.{HexIdx, board_length}
use Lut.{valid_positions, player1_starting_positions, player2_starting_positions}

-- `none` is off the board, `some none` an empty cell, `some (some x)` a cell with the piece `x`.
abbrev pub Position : Type 0 → Type 0
Position T = Option (Option T)

pub record Board (T : Type 0) : Type 0 where
  pub cells : List (Position T)

pub record InvalidBoardIndex : Type 0 where
  pub idx : HexIdx

pub data PiecePlacementError : Type 0 where
  invalid_index occupied : HexIdx → PiecePlacementError

abbrev pub flat : HexIdx → ℕ
flat (i, j) = i * board_length + j

module _ {T : Type 0} where
  -- `self[index]`, with the assertion on the column and the bounds check of the array.
  unfoldable pub index : {E : Type 0} → Board T → HexIdx → Exec E (Position T)
  index b (i, j) =
      if ltb j board_length
      then elim (get_elem? b.cells (flat (i, j))) [ some p ↦ ok p | none ↦ panic ]
      else panic

  -- `self[index] = v`.
  unfoldable pub write : {E : Type 0} → Board T → HexIdx → Position T → Exec E (Board T)
  unfolding index
  write b idx v = index b idx >>= λ _. ok (record { cells = set b.cells (flat idx) v })

  unfoldable pub fill_valid : {E : Type 0} → Board T → List HexIdx → Exec E (Board T)
  unfolding write
  fill_valid b [] = ok b
  fill_valid b (i ∷ is) = write b i (some none) >>= λ b'. fill_valid b' is

  unfoldable pub empty : {E : Type 0} → Exec E (Board T)
  unfolding fill_valid
  empty =
      fill_valid (record { cells = replicate (board_length * board_length) none }) valid_positions

  -- `get`, and the reading part of `get_mut`.
  unfoldable pub get : Board T → HexIdx → Exec InvalidBoardIndex (Option T)
  unfolding index
  get b idx = index b idx >>= ok_or (record { idx = idx })

  unfoldable pub set_piece : Board T → HexIdx → T → Exec PiecePlacementError (Board T)
  unfolding get write
  set_piece b idx piece = do
    pos ← map_err (λ e. invalid_index e.idx) (get b idx)
    elim pos [ some _ ↦ err (occupied idx) | none ↦ write b idx (some (some piece)) ]

  -- The board is changed in place, so it has the pieces placed before an error.
  unfoldable pub place_pieces :
      Board T → List HexIdx → T → Exec PiecePlacementError (Unit {0}) × Board T
  unfolding set_piece
  place_pieces b [] piece = (ok tt, b)
  place_pieces b (i ∷ is) piece = elim (set_piece b i piece) [
    | ok b' ↦ place_pieces b' is piece
    | err e ↦ (err e, b)
    | panic ↦ (panic, b)
    | undefined ↦ (undefined, b)
    | stuck ↦ (stuck, b)
  ]

  unfoldable pub with_pieces : Board T → T → List HexIdx → Exec PiecePlacementError (Board T)
  unfolding place_pieces
  with_pieces b piece is = let (done, b') = place_pieces b is piece in done >>= λ _. ok b'

  -- `enumerate()`, from a first number.
  abbrev pub enumerate : ℕ → List (Position T) → List (ℕ × Position T)
  enumerate n [] = []
  enumerate n (p ∷ ps) = (n, p) ∷ enumerate (suc n) ps

  module _ ⦃e : Eq T⦄ where
    abbrev pub index_of_piece : T → ℕ × Position T → Opt HexIdx
    index_of_piece player (i, pos) = do
      cell ← ok_or tt pos
      piece ← ok_or tt cell
      if piece == player then ok (i / board_length, i % board_length) else nothing

    unfoldable pub iter_player_indices : {E : Type 0} → Board T → T → Exec E (List HexIdx)
    unfolding filter_map
    iter_player_indices b player = filter_map (index_of_piece player) (enumerate 0 b.cells)

unfoldable pub new : {E : Type 0} → Exec E (Board Player)
unfolding empty with_pieces
new = do
  b ← empty
  b1 ← ok_unchecked (with_pieces b player1 player1_starting_positions)
  ok_unchecked (with_pieces b1 player2 player2_starting_positions)

abbrev pub goal_indices : Player → List HexIdx
goal_indices player1 = player2_starting_positions
goal_indices player2 = player1_starting_positions

-- `self.get(idx).unwrap_unchecked() == &Some(player)`.
unfoldable pub is_at : {E : Type 0} → Board Player → Player → HexIdx → Exec E Bool
unfolding get
is_at b player idx = do
  piece ← ok_unchecked (get b idx)
  ok (elim piece [ some p ↦ p == player | none ↦ false ])

-- `all` stops at the first index that fails the test.
unfoldable pub all_at : {E : Type 0} → Board Player → Player → List HexIdx → Exec E Bool
unfolding is_at
all_at b player [] = ok true
all_at b player (i ∷ is) = do
  here ← is_at b player i
  let rest = all_at b player is
  if here then rest else ok false

unfoldable pub find_winner : {E : Type 0} → Board Player → List Player → Exec E (Option Player)
unfolding all_at
find_winner b [] = ok none
find_winner b (p ∷ ps) = do
  won ← all_at b p (goal_indices p)
  let rest = find_winner b ps
  if won then ok (some p) else rest

unfoldable pub check_winner : {E : Type 0} → Board Player → Exec E (Option Player)
unfolding find_winner
check_winner b = find_winner b variants

-- `filter(..).count()`.
unfoldable pub count_at : {E : Type 0} → Board Player → Player → List HexIdx → Exec E ℕ
unfolding is_at
count_at b player [] = ok 0
count_at b player (i ∷ is) = do
  here ← is_at b player i
  rest ← count_at b player is
  ok ((if here then 1 else 0) + rest)

unfoldable pub score : {E : Type 0} → Board Player → Player → Exec E ℕ
unfolding count_at
score b player = count_at b player (goal_indices player)

unfoldable pub get_scores : {E : Type 0} → Board Player → Exec E (ℕ × ℕ)
unfolding score
get_scores b = do s1 ← score b player1; s2 ← score b player2; ok (s1, s2)
