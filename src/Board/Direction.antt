-- ===== src/Board/Direction.antt =====
-- src/sternhalma/board/mod.rs: the six directions and the nearest neighbour in each.
use sternhamla_server.Prelude.{
  ℕ, ◌+◌, ◌-◌, Option, List, [], ◌∷◌, ok, Opt, nothing, ◌>>=◌, ok_or, ltb, leb, if◌then◌else◌,
}
use sternhamla_server.Board.{Board, index}
use sternhamla_server.Board.Hex.{HexIdx, board_length}

pub data HexDirection : Type 0 where
  nw ne w e sw se : HexDirection

abbrev pub directions : List HexDirection
directions = nw ∷ ne ∷ w ∷ e ∷ sw ∷ se ∷ []

-- `a.checked_sub(b)?`, and `if j + 1 < BOARD_LENGTH { Some(j + 1) } else { None }?`.
unfoldable pub checked_sub : ℕ → ℕ → Opt ℕ
checked_sub a b = if leb b a then ok (a - b) else nothing

unfoldable pub checked_next : ℕ → Opt ℕ
checked_next j = if ltb (j + 1) board_length then ok (j + 1) else nothing

module _ {T : Type 0} where
  -- `Some((idx, self[idx].as_ref()?))`.
  unfoldable pub with_cell : Board T → HexIdx → Opt (HexIdx × Option T)
  unfolding index
  with_cell b idx = do pos ← index b idx; cell ← ok_or tt pos; ok (idx, cell)

  unfoldable pub next_nw : Board T → HexIdx → Opt (HexIdx × Option T)
  unfolding checked_sub with_cell
  next_nw b (i, j) = do i' ← checked_sub i 1; with_cell b (i', j)

  unfoldable pub next_ne : Board T → HexIdx → Opt (HexIdx × Option T)
  unfolding checked_sub checked_next with_cell
  next_ne b (i, j) = do i' ← checked_sub i 1; j' ← checked_next j; with_cell b (i', j')

  unfoldable pub next_e : Board T → HexIdx → Opt (HexIdx × Option T)
  unfolding checked_next with_cell
  next_e b (i, j) = do j' ← checked_next j; with_cell b (i, j')

  unfoldable pub next_se : Board T → HexIdx → Opt (HexIdx × Option T)
  unfolding checked_next with_cell
  next_se b (i, j) = do i' ← checked_next i; with_cell b (i', j)

  unfoldable pub next_sw : Board T → HexIdx → Opt (HexIdx × Option T)
  unfolding checked_sub checked_next with_cell
  next_sw b (i, j) = do i' ← checked_next i; j' ← checked_sub j 1; with_cell b (i', j')

  unfoldable pub next_w : Board T → HexIdx → Opt (HexIdx × Option T)
  unfolding checked_sub with_cell
  next_w b (i, j) = do j' ← checked_sub j 1; with_cell b (i, j')

  unfoldable pub nearest_neighbor : Board T → HexIdx → HexDirection → Opt (HexIdx × Option T)
  unfolding next_nw next_ne next_e next_se next_sw next_w
  nearest_neighbor b idx nw = next_nw b idx
  nearest_neighbor b idx ne = next_ne b idx
  nearest_neighbor b idx w = next_w b idx
  nearest_neighbor b idx e = next_e b idx
  nearest_neighbor b idx sw = next_sw b idx
  nearest_neighbor b idx se = next_se b idx
