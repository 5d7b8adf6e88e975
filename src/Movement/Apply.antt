-- ===== src/Movement/Apply.antt =====
-- src/sternhalma/board/movement.rs, `apply_movement` and `apply_movement_unchecked`.
use mathlib.Core.List.{append_assoc}
use sternhamla_server.Prelude.{
  ◌≡◌, refl, ◌∙◌, ◌⊎◌, inl, inr, Option, none, some, List, [], ◌∷◌, ◌++◌, last?, All, ok, Returns,
  Returns-imp, ◌==◌, if◌then◌else◌, Bool-cases, arith,
}
use sternhamla_server.Board.{Board}
use sternhamla_server.Board.Hex.{HexIdx, Inside, idx_eq}
use sternhamla_server.Board.Cells.{
  IsSquare, cell, put, write-put, put-IsSquare, cell-put, Inside-of_cell,
}
use sternhamla_server.Movement.{
  Movement, move, hops, MovementError, to_indices, validate_movement, apply_movement_unchecked,
  apply_movement,
}
use sternhamla_server.Movement.Paths.{Extends, one, more}
use sternhamla_server.Movement.Available.{Legal}
use sternhamla_server.Movement.Validate.{Acceptable, get_of_cell, validate_movement_iff}

-- The piece `p` went from one cell to the other, and no other cell changed.
pub record Moved {T : Type 0} (b : Board T) (from to : HexIdx) (p : T) (b' : Board T) : Type 0 where
  pub square : IsSquare b'
  pub cells :
      (k : HexIdx)
      → cell b' k ≡ (if to == k then some (some p) else if from == k then some none else cell b k)

still_there :
    {T : Type 0} (b : Board T) (sq : IsSquare b) (from to : HexIdx) (o : Option T)
    → Inside from
    → cell b to ≡ some o
    → (o' : Option T) × (cell (put b from (some none)) to ≡ some o')
still_there b sq from to o inside at_to = elim (Bool-cases (from == to)) [
  | inl same ↦ (none, rw (cell-put b from to (some none) sq inside, same))
  | inr other ↦ (o, rw (cell-put b from to (some none) sq inside, other) at_to)
]

module _ {T : Type 0} (b : Board T) (sq : IsSquare b) where
  -- From an occupied cell to any cell of the star the piece moves, and nothing is undefined.
  pub apply_movement_unchecked-Moved :
      (E : Type 0) (from to : HexIdx) (p : T) (o : Option T)
      → cell b from ≡ some (some p)
      → cell b to ≡ some o
      → Returns (Moved b from to p) (apply_movement_unchecked {E = E} b (from, to))
  unfolding apply_movement_unchecked
  apply_movement_unchecked-Moved E from to p o at_from at_to =
      let inside = Inside-of_cell b from (some p) sq at_from in
      let inside' = Inside-of_cell b to o sq at_to in
      let taken = put b from (some none) in
      let sq' = put-IsSquare b from (some none) sq in
      let (o', now) = still_there b sq from to o inside at_to in
      rw
        (
          get_of_cell b from (some p) sq at_from,
          write-put E b from (some none) sq inside,
          get_of_cell taken to o' sq' now,
          write-put E taken to (some (some p)) sq' inside',
        )
        (record {
          square = put-IsSquare taken to (some (some p)) sq';
          cells = λ k. ground (
            arith,
            cell-put taken to k (some (some p)) sq' inside',
            cell-put b from k (some none) sq inside,
          );
        })

  -- The cells that a path adds to another are empty.
  Extends-empty :
      (path q : List HexIdx)
      → Extends b path q
      → (rest : List HexIdx) × (q ≡ path ++ rest) × All (λ k. cell b k ≡ some none) rest
  Extends-empty path q (one l k at_l h new e) = (k ∷ [], e, (h.1.5, tt))
  Extends-empty path q (more l k at_l h new later) =
      let (rest, e, empty) = Extends-empty (path ++ k ∷ []) q later in
      (k ∷ rest, e ∙ append_assoc path (k ∷ []) rest, (h.1.5, empty))

  -- Every move that the rules allow is accepted.
  pub Legal-Acceptable :
      (i : HexIdx) (m : Movement) (p : T)
      → cell b i ≡ some (some p)
      → Legal b i m
      → Acceptable b m p
  Legal-Acceptable i m p c (inl (d, k, t, empty, e)) = rw e (c, empty)
  Legal-Acceptable i m p c (inr (q, e, x)) =
      let (rest, e', empty) = Extends-empty (i ∷ []) q x in rw (e, e') (c, empty)

last-empty :
    {T : Type 0} (b : Board T) (i : HexIdx) (is : List HexIdx)
    → All (λ k. cell b k ≡ some none) is
    → (l : HexIdx) × (last? (i ∷ is) ≡ some l) × ((cell b l ≡ some none) ⊎ (l ≡ i))
last-empty b i [] h = (i, refl, inr refl)
last-empty b i (k ∷ is) h =
    let (l, e, at_l) = last-empty b k is h.1 in
    (l, e, elim at_l [ inl empty ↦ inl empty | inr same ↦ inl (rw same h.0) ])

-- An accepted movement has a start, with the piece on it, and an end, which is empty or the start.
pub Acceptable-indices :
    {T : Type 0} (E : Type 0) (b : Board T) (m : Movement) (p : T)
    → Acceptable b m p
    → (from to : HexIdx) × (to_indices {E = E} m ≡ ok (from, to))
      × (cell b from ≡ some (some p))
      × ((cell b to ≡ some none) ⊎ (to ≡ from))
unfolding to_indices
Acceptable-indices E b (move from to) p h = (from, to, refl, h.0, inl h.1)
Acceptable-indices E b (hops []) p h = absurd h
Acceptable-indices E b (hops (i ∷ is)) p h =
    let (l, e, at_l) = last-empty b i is h.1 in (i, l, rw e, h.0, at_l)

-- On a board of 17 * 17 cells `apply_movement` returns for a movement that `validate_movement`
-- accepts: the piece goes from the first cell that the movement names to the last, no other cell
-- changes, and the board keeps its size.
pub apply_movement-Moved :
    {T : Type 0} (b : Board T) (m : Movement) (p : T)
    → IsSquare b
    → validate_movement b m ≡ ok (m, p)
    → Returns
        (λ b'.
          (from to : HexIdx) × (to_indices {E = MovementError} m ≡ ok (from, to))
          × Moved b from to p b')
        (apply_movement b m)
unfolding apply_movement
apply_movement-Moved {T} b m p sq valid =
    let (from, to, ends, c, free) =
      Acceptable-indices MovementError b m p ((validate_movement_iff b m p sq).0 valid) in
    let (o, c') = landing from to c free in
    rw (valid, ends)
      (Returns-imp (Moved b from to p) _ (apply_movement_unchecked b (from, to))
        (λ b' moved. (from, to, refl, moved))
        (apply_movement_unchecked-Moved b sq MovementError from to p o c c'))
  where
    landing :
        (from to : HexIdx)
        → cell b from ≡ some (some p)
        → ((cell b to ≡ some none) ⊎ (to ≡ from))
        → (o : Option T) × (cell b to ≡ some o)
    landing from to c (inl empty) = (none, empty)
    landing from to c (inr same) = (some p, rw same c)
