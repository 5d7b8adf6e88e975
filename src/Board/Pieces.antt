-- ===== src/Board/Pieces.antt =====
-- src/sternhalma/board/mod.rs, `iter_player_indices`, in terms of cells.
use sternhamla_server.Prelude.{
  ℕ, zero, suc, ◌+◌, ◌/◌, ◌%◌, ◌<◌, ◌≡◌, refl, sym, ◌∙◌, ap, ◌↔◌, inl, inr, Option, none, some,
  List, [], ◌∷◌, get_elem?, ◌∈◌, Bool-cases, true, false, ok, Returns, Returns-imp, Answers,
  Collects, filter_map-Collects, Eq, ◌==◌, ltb, arith,
}
use sternhamla_server.Board.{Board, Position, flat, enumerate, index_of_piece, iter_player_indices}
use sternhamla_server.Board.Hex.{HexIdx, board_length}
use sternhamla_server.Board.Cells.{IsSquare, cell}

flat_back : (k : HexIdx) → k.1 < board_length → k ≡ (flat k / board_length, flat k % board_length)
flat_back (i, j) h =
    let row : i ≡ flat (i, j) / board_length = omega (arith, h) in
    let column : j ≡ flat (i, j) % board_length = omega (arith, h) in λ t. (row t, column t)

module _ {T : Type 0} where
  enumerate-mem :
      (n : ℕ) (ps : List (Position T)) (i : ℕ) (pos : Position T)
      → (i, pos) ∈ enumerate n ps
      → (j : ℕ) × (i ≡ j + n) × (get_elem? ps j ≡ some pos)
  enumerate-mem n [] i pos m = absurd m
  enumerate-mem n (p ∷ ps) i pos (inl e) =
      (0, omega (arith, ap (λ x. x.0) e), ap (λ x. some x.1) (sym e))
  enumerate-mem n (p ∷ ps) i pos (inr m) =
      let (j, e, h) = enumerate-mem (suc n) ps i pos m in (suc j, omega (arith, e), h)

  mem-enumerate :
      (n : ℕ) (ps : List (Position T)) (j : ℕ) (i : ℕ) (pos : Position T)
      → i ≡ j + n
      → get_elem? ps j ≡ some pos
      → (i, pos) ∈ enumerate n ps
  mem-enumerate n [] j i pos e h = absurd (cc)
  mem-enumerate n (p ∷ ps) zero i pos e h = inl (ground (arith, e, h))
  mem-enumerate n (p ∷ ps) (suc j) i pos e h =
      inr (mem-enumerate (suc n) ps j i pos (omega (arith, e)) h)

  -- The cell of a place of the array, and the place of a cell.
  cell_at :
      (b : Board T) (i : ℕ) (pos : Position T)
      → get_elem? b.cells i ≡ some pos
      → cell b (i / board_length, i % board_length) ≡ pos
  unfolding cell
  cell_at b i pos h =
      let same : flat (i / board_length, i % board_length) ≡ i = omega arith in
      let low : ltb (i % board_length) board_length ≡ true = ground arith in rw (low, same, h)

  elem_of_cell :
      (b : Board T) (i j : ℕ) (o : Option T)
      → cell b (i, j) ≡ some o
      → (get_elem? b.cells (flat (i, j)) ≡ some (some o)) × (j < board_length)
  unfolding cell
  elem_of_cell b i j o h = ground arith

module _ {T : Type 0} ⦃e : Eq T⦄ (p : T) where
  index_of_piece_iff :
      (i : ℕ) (pos : Position T) (k : HexIdx)
      → (index_of_piece p (i, pos) ≡ ok k)
        ↔ ((pos ≡ some (some p)) × (k ≡ (i / board_length, i % board_length)))
  index_of_piece_iff i none k = (λ h. absurd (cc), λ h. absurd (cc h.0))
  index_of_piece_iff i (some none) k = (λ h. absurd (cc), λ h. absurd (cc h.0))
  index_of_piece_iff i (some (some q)) k = elim (Bool-cases (q == p)) [
    | inl same ↦ (
      λ h. (ap (λ x. some (some x)) ((e.eqb_iff q p).0 same), ground (arith, h)),
      λ h. rw same (ap ok (sym h.1)),
    )
    | inr other ↦
        (λ h. absurd (cc (rw other at h)), λ h. absurd (differ other (ground (arith, h.0))))
  ]
    where
      differ : (q == p) ≡ false → ¬ (q ≡ p)
      differ other same = cc ((e.eqb_iff q p).1 same)

  index_of_piece-safe :
      (x : ℕ × Position T) → Answers (λ _. Unit {0}) (Unit {0}) (index_of_piece p x)
  index_of_piece-safe (i, none) = tt
  index_of_piece-safe (i, some none) = tt
  index_of_piece-safe (i, some (some q)) = ground arith

  -- On a board of 17 * 17 cells `iter_player_indices` returns, and an index is in its list
  -- exactly when its cell has a piece of the player.
  pub iter_player_indices-cell :
      (E : Type 0) (b : Board T)
      → IsSquare b
      → Returns
          (λ is. (k : HexIdx) → (k ∈ is) ↔ (cell b k ≡ some (some p)))
          (iter_player_indices {E = E} b p)
  unfolding iter_player_indices
  iter_player_indices-cell E b sq =
      Returns-imp (Collects (index_of_piece p) (enumerate 0 b.cells)) _ _
        (λ is c k. (
          λ m.
              let ((i, pos), at_i, found) = c.1 k m in
              let (j, i_j, here) = enumerate-mem 0 b.cells i pos at_i in
              let (at_pos, k_i) = (index_of_piece_iff i pos k).0 found in
              let same : i ≡ j = omega (arith, i_j) in
              ap (cell b) k_i ∙ cell_at b i pos (ap (get_elem? b.cells) same ∙ here) ∙ at_pos,
          λ h.
              let (here, low) = elem_of_cell b k.0 k.1 (some p) h in
              c.0 (flat k, some (some p)) k
                (mem-enumerate 0 b.cells (flat k) (flat k) (some (some p)) (omega arith) here)
                ((index_of_piece_iff (flat k) (some (some p)) k).1 (refl, flat_back k low)),
        ))
        (filter_map-Collects (index_of_piece p) E (enumerate 0 b.cells)
          (λ x m. index_of_piece-safe x))
