-- ===== src/Movement/Validate.antt =====
-- src/sternhalma/board/movement.rs, `validate_movement`.
use sternhamla_server.Prelude.{
  ◌≡◌, refl, ◌∙◌, ◌↔◌, inl, inr, Option, none, some, List, [], ◌∷◌, All, ok, map_err, ok_or, ap,
  Option-cases, >>=-eq-ok, map_err-eq-ok, ok_or-eq-ok, arith,
}
use sternhamla_server.Board.{Board, InvalidBoardIndex, get}
use sternhamla_server.Board.Hex.{HexIdx, idx_eq}
use sternhamla_server.Board.Cells.{IsSquare, cell, get-cell, Inside-of_cell}
use sternhamla_server.Movement.{
  Movement, move, hops, empty_init, invalid_index, validate_movement, check_hop, check_hops,
}

module _ {T : Type 0} (b : Board T) where
  -- What the validation looks at: the piece at the start, and that the other cells are empty.
  abbrev pub Acceptable : Movement → T → Type 0
  Acceptable (move from to) p = (cell b from ≡ some (some p)) × (cell b to ≡ some none)
  Acceptable (hops []) p = ⊥
  Acceptable (hops (i ∷ is)) p = (cell b i ≡ some (some p)) × All (λ k. cell b k ≡ some none) is

  cell_of_get : (k : HexIdx) (o : Option T) → get b k ≡ ok o → cell b k ≡ some o
  unfolding get cell
  cell_of_get (i, j) o h = ground arith

  pub get_of_cell : (k : HexIdx) (o : Option T) → IsSquare b → cell b k ≡ some o → get b k ≡ ok o
  get_of_cell k o sq h =
      get-cell b k sq (Inside-of_cell b k o sq h) ∙ ap (ok_or (record { idx = k })) h

  -- A cell that was read through `map_err`.
  cell_of_map_err :
      {F : Type 0} (f : InvalidBoardIndex → F) (k : HexIdx) (o : Option T)
      → map_err f (get b k) ≡ ok o
      → cell b k ≡ some o
  cell_of_map_err f k o h = cell_of_get k o (map_err-eq-ok f (get b k) o h)

  check_hop_iff : (sq : IsSquare b) (k : HexIdx) → (check_hop b k ≡ ok tt) ↔ (cell b k ≡ some none)
  unfolding check_hop
  check_hop_iff sq k = (
    λ h.
        let (o, got, rest) = >>=-eq-ok (map_err (λ _. invalid_index k) (get b k)) _ tt h in
        let c = cell_of_map_err (λ _. invalid_index k) k o got in
        elim (Option-cases o) [
          | inl empty ↦ rw empty at c
          | inr (x, full) ↦ absurd (cc (rw full at rest))
        ],
    λ h. rw (get_of_cell k none sq h),
  )

  check_hops_iff :
      (sq : IsSquare b) (ks : List HexIdx)
      → (check_hops b ks ≡ ok tt) ↔ All (λ k. cell b k ≡ some none) ks
  unfolding check_hops
  check_hops_iff sq [] = (λ _. tt, λ _. refl)
  check_hops_iff sq (k ∷ ks) = (
    λ h.
        let (u, first, rest) = >>=-eq-ok (check_hop b k) (λ _. check_hops b ks) tt h in
        ((check_hop_iff sq k).0 first, (check_hops_iff sq ks).0 rest),
    λ h. rw ((check_hop_iff sq k).1 h.0) ((check_hops_iff sq ks).1 h.1),
  )

  -- On a board of 17 * 17 cells `validate_movement` accepts a movement for the piece p exactly
  -- when the first cell that it names has the piece p and every other cell that it names is an
  -- empty cell of the star; a path must name a cell.
  pub validate_movement_iff :
      (m : Movement) (p : T) → IsSquare b → (validate_movement b m ≡ ok (m, p)) ↔ Acceptable m p
  unfolding validate_movement
  validate_movement_iff (move from to) p sq = (
    λ h.
        let (o, got, h1) = >>=-eq-ok (map_err (λ e. invalid_index e.idx) (get b from)) _ _ h in
        let (q, at_from, h2) = >>=-eq-ok (ok_or empty_init o) _ _ h1 in
        let (o', got', h3) = >>=-eq-ok (map_err (λ _. invalid_index from) (get b to)) _ _ h2 in
        let c = cell_of_map_err (λ e. invalid_index e.idx) from o got in
        let c' = cell_of_map_err (λ _. invalid_index from) to o' got' in
        elim (Option-cases o') [
          | inl empty ↦ ground (arith, ok_or-eq-ok empty_init o q at_from, c, c', h3)
          | inr (x, full) ↦ absurd (cc (rw full at h3))
        ],
    λ h. rw (get_of_cell from (some p) sq h.0, get_of_cell to none sq h.1),
  )
  validate_movement_iff (hops []) p sq = (λ h. cc, λ h. absurd h)
  validate_movement_iff (hops (i ∷ is)) p sq = (
    λ h.
        let (o, got, h1) = >>=-eq-ok (map_err (λ _. invalid_index i) (get b i)) _ _ h in
        let (q, at_i, h2) = >>=-eq-ok (ok_or empty_init o) _ _ h1 in
        let (u, checked, h3) = >>=-eq-ok (check_hops b is) _ _ h2 in
        let c = cell_of_map_err (λ _. invalid_index i) i o got in
        (ground (arith, ok_or-eq-ok empty_init o q at_i, c, h3), (check_hops_iff sq is).0 checked),
    λ h. rw (get_of_cell i (some p) sq h.0, (check_hops_iff sq is).1 h.1),
  )

  -- What the validation returns is the movement that it was given.
  pub validate_movement-same :
      (m m' : Movement) (p : T) → validate_movement b m ≡ ok (m', p) → m' ≡ m
  unfolding validate_movement
  validate_movement-same (move from to) m' p h =
      let (o, got, h1) = >>=-eq-ok (map_err (λ e. invalid_index e.idx) (get b from)) _ _ h in
      let (q, at_from, h2) = >>=-eq-ok (ok_or empty_init o) _ _ h1 in
      let (o', got', h3) = >>=-eq-ok (map_err (λ _. invalid_index from) (get b to)) _ _ h2 in
      elim (Option-cases o') [
        | inl empty ↦ ground (arith, rw empty at h3)
        | inr (x, full) ↦ absurd (cc (rw full at h3))
      ]
  validate_movement-same (hops []) m' p h = absurd (cc)
  validate_movement-same (hops (i ∷ is)) m' p h =
      let (o, got, h1) = >>=-eq-ok (map_err (λ _. invalid_index i) (get b i)) _ _ h in
      let (q, at_i, h2) = >>=-eq-ok (ok_or empty_init o) _ _ h1 in
      let (u, checked, h3) = >>=-eq-ok (check_hops b is) _ _ h2 in cc
