-- ===== src/Board/Cells.antt =====
-- The board seen as a function from indices to cells: what `index`, `get` and a write do.
use sternhamla_server.Prelude.{
  ◌*◌, ◌<◌, ◌≡◌, ◌∙◌, Option, none, some, length, get_elem?, set, length-set, get_elem?_total,
  get_elem?_above, get_elem?-set_self, get_elem?-set_ne, ok, panic, ok_or, ltb, if◌then◌else◌, ◌==◌,
  arith,
}
use sternhamla_server.Board.{Board, Position, InvalidBoardIndex, flat, index, write, get}
use sternhamla_server.Board.Hex.{HexIdx, Inside, board_length, idx_eq}

abbrev pub flatten : {T : Type 0} → Option (Position T) → Position T
flatten none = none
flatten (some p) = p

pub flat-lt : (idx : HexIdx) → Inside idx → flat idx < board_length * board_length
flat-lt (i, j) h = omega arith

flat_inj : (a c : HexIdx) → Inside a → Inside c → flat a ≡ flat c → a ≡ c
flat_inj (i, j) (k, l) h g e = ground arith

module _ {T : Type 0} where
  -- Off the square every cell is off the board.
  unfoldable pub cell : Board T → HexIdx → Position T
  cell b (i, j) = if ltb j board_length then flatten (get_elem? b.cells (flat (i, j))) else none

  -- The array has its 17 * 17 cells.
  abbrev pub IsSquare : Board T → Type 0
  IsSquare b = length b.cells ≡ board_length * board_length

  pub Inside-of_cell :
      (b : Board T) (idx : HexIdx) (o : Option T) → IsSquare b → cell b idx ≡ some o → Inside idx
  unfolding cell
  Inside-of_cell b (i, j) o sq h = ground (arith, get_elem?_above b.cells (flat (i, j)))

  -- On the square `index` reads the cell, and off it the code panics.
  pub index-cell :
      (E : Type 0) (b : Board T) (idx : HexIdx)
      → IsSquare b
      → Inside idx
      → index {E = E} b idx ≡ ok (cell b idx)
  unfolding index cell
  index-cell E b (i, j) sq h = ground (arith, get_elem?_total b.cells (flat (i, j)) (omega arith))

  index_outside :
      (E : Type 0) (b : Board T) (idx : HexIdx)
      → IsSquare b
      → ¬ Inside idx
      → index {E = E} b idx ≡ panic
  unfolding index
  index_outside E b (i, j) sq h = ground (arith, get_elem?_above b.cells (flat (i, j)))

  pub put : Board T → HexIdx → Position T → Board T
  put b idx v = record { cells = set b.cells (flat idx) v }

  pub write-put :
      (E : Type 0) (b : Board T) (idx : HexIdx) (v : Position T)
      → IsSquare b
      → Inside idx
      → write {E = E} b idx v ≡ ok (put b idx v)
  unfolding put write
  write-put E b idx v sq h = rw (write, index-cell E b idx sq h)

  pub put-IsSquare :
      (b : Board T) (idx : HexIdx) (v : Position T) → IsSquare b → IsSquare (put b idx v)
  unfolding put
  put-IsSquare b idx v sq = length-set b.cells (flat idx) v ∙ sq

  pub cell-put :
      (b : Board T) (idx k : HexIdx) (v : Position T)
      → IsSquare b
      → Inside idx
      → cell (put b idx v) k ≡ (if idx == k then v else cell b k)
  unfolding put cell
  cell-put b (i, j) (k, l) v sq h = ground (
    arith,
    get_elem?-set_self b.cells (flat (i, j)) v (omega arith),
    get_elem?-set_ne b.cells (flat (i, j)) (flat (k, l)) v,
    flat_inj (i, j) (k, l) h,
  )

  -- `get` answers on the star, and refuses the cells of the square that are off the star.
  pub get-cell :
      (b : Board T) (idx : HexIdx)
      → IsSquare b
      → Inside idx
      → get b idx ≡ ok_or (record { idx = idx }) (cell b idx)
  unfolding get cell
  get-cell b idx sq h = rw (get, index-cell InvalidBoardIndex b idx sq h)
