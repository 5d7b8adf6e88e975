-- ===== src/Board/Neighbours.antt =====
-- src/sternhalma/board/mod.rs, `nearest_neighbor`, in terms of steps and cells.
use sternhamla_server.Prelude.{
  ℕ, ◌+◌, ◌-◌, ◌≤◌, ◌<◌, ◌≡◌, refl, ◌⊎◌, inl, inr, Option, none, some, ok, Opt, nothing, Answers,
  Answers-imp, Option-cases, ltb, leb, Bool-cases, arith,
}
use sternhamla_server.Board.{Board}
use sternhamla_server.Board.Hex.{HexIdx, Inside, board_length}
use sternhamla_server.Board.Cells.{IsSquare, cell, index-cell, Inside-of_cell}
use sternhamla_server.Board.Direction.{
  HexDirection, nw, ne, w, e, sw, se, checked_sub, checked_next, with_cell, nearest_neighbor,
}

-- One step in a direction, on the infinite grid.
abbrev pub Toward : HexDirection → HexIdx → HexIdx → Type 0
Toward nw (i, j) (k, l) = (k + 1 ≡ i) × (l ≡ j)
Toward ne (i, j) (k, l) = (k + 1 ≡ i) × (l ≡ j + 1)
Toward w (i, j) (k, l) = (k ≡ i) × (l + 1 ≡ j)
Toward e (i, j) (k, l) = (k ≡ i) × (l ≡ j + 1)
Toward sw (i, j) (k, l) = (k ≡ i + 1) × (l + 1 ≡ j)
Toward se (i, j) (k, l) = (k ≡ i + 1) × (l ≡ j)

pub Toward-det : (d : HexDirection) (a b c : HexIdx) → Toward d a b → Toward d a c → b ≡ c
Toward-det nw a (i, j) (k, l) h g = ground arith
Toward-det ne a (i, j) (k, l) h g = ground arith
Toward-det w a (i, j) (k, l) h g = ground arith
Toward-det e a (i, j) (k, l) h g = ground arith
Toward-det sw a (i, j) (k, l) h g = ground arith
Toward-det se a (i, j) (k, l) h g = ground arith

checked_sub_cases :
    (a : ℕ)
    → ((a ≡ 0) × (checked_sub a 1 ≡ nothing)) ⊎ ((b : ℕ) × (b + 1 ≡ a) × (checked_sub a 1 ≡ ok b))
unfolding checked_sub
checked_sub_cases a = elim (Bool-cases (leb 1 a)) [
  | inl h ↦ inr (a - 1, ground arith, ground arith)
  | inr h ↦ inl (ground arith, ground arith)
]

checked_next_cases :
    (a : ℕ)
    → ((board_length ≤ a + 1) × (checked_next a ≡ nothing))
      ⊎ ((a + 1 < board_length) × (checked_next a ≡ ok (a + 1)))
unfolding checked_next
checked_next_cases a = elim (Bool-cases (ltb (a + 1) board_length)) [
  | inl h ↦ inr (ground arith, ground arith)
  | inr h ↦ inl (ground arith, ground arith)
]

module _ {T : Type 0} (b : Board T) (sq : IsSquare b) where
  with_cell-Answers :
      (n : HexIdx)
      → Inside n
      → Answers (λ r. (r.0 ≡ n) × (cell b n ≡ some r.1)) (cell b n ≡ none) (with_cell b n)
  unfolding with_cell
  with_cell-Answers n inside =
      rw (index-cell (Unit {0}) b n sq inside) (elim (Option-cases (cell b n)) [
        | inl off ↦ rw off refl
        | inr (o, on) ↦ rw on (refl, refl)
      ])

  outside-cell : (n : HexIdx) → ¬ Inside n → cell b n ≡ none
  outside-cell n out = elim (Option-cases (cell b n)) [
    | inl off ↦ off
    | inr (o, on) ↦ absurd (out (Inside-of_cell b n o sq on))
  ]

  -- What an answer of `nearest_neighbor` says: a cell of the star one step away, and what is on it;
  -- or that there is none.
  abbrev pub Finds : HexIdx → HexDirection → Opt (HexIdx × Option T) → Type 0
  Finds idx d =
      Answers (λ r. Toward d idx r.0 × (cell b r.0 ≡ some r.1))
        ((n : HexIdx) → Toward d idx n → cell b n ≡ none)

  land :
      (idx n : HexIdx) (d : HexDirection) → Toward d idx n → Inside n → Finds idx d (with_cell b n)
  land idx n d t inside =
      Answers-imp _ _ _ _ (with_cell b n) (λ r h. (rw h.0 t, rw h.0 h.1))
        (λ h k u. rw (Toward-det d idx k n u t) h) (with_cell-Answers n inside)

  -- On a board of 17 * 17 cells and for an index on it, `nearest_neighbor` never panics. It
  -- answers with the cell one step away in the direction and what stands on it, or with nothing,
  -- and then no cell one step away in the direction is on the star.
  pub nearest_neighbor-Finds :
      (idx : HexIdx) (d : HexDirection) → Inside idx → Finds idx d (nearest_neighbor b idx d)
  unfolding nearest_neighbor
  nearest_neighbor-Finds (i, j) nw h = elim (checked_sub_cases i) [
    | inl (z, edge) ↦ rw edge (λ n u. absurd (omega arith))
    | inr (k, s, up) ↦ rw up (land (i, j) (k, j) nw (s, refl) (omega arith))
  ]
  nearest_neighbor-Finds (i, j) ne h = elim (checked_sub_cases i) [
    | inl (z, edge) ↦ rw edge (λ n u. absurd (omega arith))
    | inr (k, s, up) ↦ rw up (elim (checked_next_cases j) [
      | inl (z, edge) ↦ rw edge (λ n u. outside-cell n (λ c. omega arith))
      | inr (s', right) ↦ rw right (land (i, j) (k, j + 1) ne (s, refl) (omega arith))
    ])
  ]
  nearest_neighbor-Finds (i, j) w h = elim (checked_sub_cases j) [
    | inl (z, edge) ↦ rw edge (λ n u. absurd (omega arith))
    | inr (l, s, left) ↦ rw left (land (i, j) (i, l) w (refl, s) (omega arith))
  ]
  nearest_neighbor-Finds (i, j) e h = elim (checked_next_cases j) [
    | inl (z, edge) ↦ rw edge (λ n u. outside-cell n (λ c. omega arith))
    | inr (s, right) ↦ rw right (land (i, j) (i, j + 1) e (refl, refl) (omega arith))
  ]
  nearest_neighbor-Finds (i, j) sw h = elim (checked_next_cases i) [
    | inl (z, edge) ↦ rw edge (λ n u. outside-cell n (λ c. omega arith))
    | inr (s, down) ↦ rw down (elim (checked_sub_cases j) [
      | inl (z, edge) ↦ rw edge (λ n u. absurd (omega arith))
      | inr (l, s', left) ↦ rw left (land (i, j) (i + 1, l) sw (refl, s') (omega arith))
    ])
  ]
  nearest_neighbor-Finds (i, j) se h = elim (checked_next_cases i) [
    | inl (z, edge) ↦ rw edge (λ n u. outside-cell n (λ c. omega arith))
    | inr (s, down) ↦ rw down (land (i, j) (i + 1, j) se (refl, refl) (omega arith))
  ]
