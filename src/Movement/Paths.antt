-- ===== src/Movement/Paths.antt =====
-- src/sternhalma/board/movement.rs, `collect_hop_paths_from`: chains of hops.
use native.Mathlib.Decide.{dec_lt}
use sternhamla_server.Prelude.{
  ℕ, zero, suc, ◌+◌, ◌/◌, ◌%◌, ◌≤◌, ◌<◌, ◌≡◌, refl, ◌↔◌, ◌⊎◌, inl, inr, false, none, some, List, [],
  ◌∷◌, ◌++◌, last?, last?-append, contains, contains-append, contains-mem, contains_of_not-mem,
  not-mem_of_contains, ◌∈◌, Exec, Returns, Returns-imp, Returns-bind, Returns-elim, Returns_of_ok,
  flat_map, flat_map-Flattens, Flattens, Bool-cases, if◌then◌else◌, arith,
}
use sternhamla_server.Board.{Board, flat}
use sternhamla_server.Board.Hex.{HexIdx, Inside, board_length, idx_eq, idx_beq_iff}
use sternhamla_server.Board.Cells.{IsSquare, flat-lt, Inside-of_cell}
use sternhamla_server.Movement.{
  Movement, hops, extend_path, collect_hop_paths_from, available_hops_from,
}
use sternhamla_server.Movement.Hops.{Hop, available_hops_from-Hop}

-- How many of the first `n` cells of the square a path has not visited.
pub unvisited : ℕ → List HexIdx → ℕ
unvisited zero path = 0
unvisited (suc n) path =
    (if contains path (n / board_length, n % board_length) then 0 else 1) + unvisited n path

pub unvisited-le : (n : ℕ) (path : List HexIdx) → unvisited n path ≤ n
unfolding unvisited
unvisited-le zero path = omega arith
unvisited-le (suc n) path = ground (arith, unvisited-le n path)

unvisited-append-le :
    (n : ℕ) (path : List HexIdx) (k : HexIdx) → unvisited n (path ++ k ∷ []) ≤ unvisited n path
unfolding unvisited
unvisited-append-le zero path k = omega arith
unvisited-append-le (suc n) path k = ground (
  arith,
  unvisited-append-le n path k,
  contains-append path k (n / board_length, n % board_length),
)

cell_of_flat :
    (k : HexIdx) (n : ℕ) → Inside k → flat k ≡ n → k ≡ (n / board_length, n % board_length)
cell_of_flat (i, j) n h e = ground arith

unvisited-append :
    (n : ℕ) (path : List HexIdx) (k : HexIdx)
    → contains path k ≡ false
    → Inside k
    → flat k < n
    → unvisited n (path ++ k ∷ []) < unvisited n path
unfolding unvisited
unvisited-append zero path k c i h = absurd (omega arith)
unvisited-append (suc n) path k c i h = elim (dec_lt (flat k) n) [
  | yes below ↦ ground (
    arith,
    unvisited-append n path k c i below,
    contains-append path k (n / board_length, n % board_length),
  )
  | no last ↦
      let here : k ≡ (n / board_length, n % board_length) = cell_of_flat k n i (omega arith) in
      rw (← here, contains-append path k k, c, (idx_beq_iff k k).1 refl)
        (omega (arith, unvisited-append-le n path k))
]

module _ {T : Type 0} (b : Board T) where
  -- The second path goes on from the first, hop by hop, and visits no cell twice.
  pub data Extends : List HexIdx → List HexIdx → Type 0 where
    one :
        {path q : List HexIdx} (l k : HexIdx)
        → last? path ≡ some l
        → Hop b l k
        → ¬ (k ∈ path)
        → q ≡ path ++ k ∷ []
        → Extends path q
    more :
        {path q : List HexIdx} (l k : HexIdx)
        → last? path ≡ some l
        → Hop b l k
        → ¬ (k ∈ path)
        → Extends (path ++ k ∷ []) q
        → Extends path q

  abbrev pub Extensions : List HexIdx → List Movement → Type 0
  Extensions path ms =
      (m : Movement) → (m ∈ ms) ↔ ((q : List HexIdx) × (m ≡ hops q) × Extends path q)

  -- What one hop adds to the list.
  abbrev Through : List HexIdx → HexIdx → Movement → Type 0
  Through path k m =
      (q : List HexIdx) × ¬ (k ∈ path)
      × (m ≡ hops q)
      × ((q ≡ path ++ k ∷ []) ⊎ Extends (path ++ k ∷ []) q)

  extend_path-Through :
      (E : Type 0) (further : List HexIdx → Exec E (List Movement)) (path : List HexIdx)
      (k : HexIdx)
      → (¬ (k ∈ path) → Returns (Extensions (path ++ k ∷ [])) (further (path ++ k ∷ [])))
      → Returns (λ ms. (m : Movement) → (m ∈ ms) ↔ Through path k m) (extend_path further path k)
  unfolding extend_path
  extend_path-Through E further path k rec = elim (Bool-cases (contains path k)) [
    | inl seen ↦
        rw (seen, extend_path)
          (λ m. (λ no_m. absurd no_m, λ t. absurd (t.1 (contains-mem path k seen))))
    | inr fresh ↦
        let new = not-mem_of_contains path k fresh in
        rw (fresh, extend_path)
          (Returns-bind (Extensions (path ++ k ∷ [])) _ (further (path ++ k ∷ [])) _ (rec new)
            λ ms h m. (
              λ p. elim p [
                | inl first ↦ (path ++ k ∷ [], new, first, inl refl)
                | inr later ↦ let (q, e, x) = (h m).0 later in (q, new, e, inr x)
              ],
              λ t.
                  let (q, _, e, x) = t in
                  elim x [
                    | inl last ↦ inl (rw (e, last))
                    | inr later ↦ inr ((h m).1 (q, e, later))
                  ],
            ))
  ]

  -- One round of the recursion, over what it says of each hop.
  flat_map-Extensions :
      (E : Type 0) (further : HexIdx → Exec E (List Movement)) (path : List HexIdx) (l : HexIdx)
      (ks : List HexIdx)
      → last? path ≡ some l
      → ((k : HexIdx) → (k ∈ ks) ↔ Hop b l k)
      → ((k : HexIdx)
          → Hop b l k
          → Returns (λ ms. (m : Movement) → (m ∈ ms) ↔ Through path k m) (further k))
      → Returns (Extensions path) (flat_map further ks)
  flat_map-Extensions E further path l ks at_l hop through =
      Returns-imp (Flattens further ks) (Extensions path) (flat_map further ks) gather (
        flat_map-Flattens further ks
          (λ k m. Returns-imp _ (λ _. Unit {0}) (further k) (λ _ _. tt) (through k ((hop k).0 m))))
    where
      gather : (ms : List Movement) → Flattens further ks ms → Extensions path ms
      gather ms fl m = (
        λ in_ms.
            let (k, zs, in_ks, ran, in_zs) = fl.1 m in_ms in
            let h = (hop k).0 in_ks in
            let (q, new, e, x) = (Returns_of_ok _ (further k) zs ran (through k h) m).0 in_zs in
            (
              q,
              e,
              elim x [ inl last ↦ one l k at_l h new last | inr later ↦ more l k at_l h new later ],
            ),
        λ found. let (q, e, x) = found in back q e x,
      )
        where
          add : (q : List HexIdx) (k : HexIdx) → Hop b l k → Through path k m → m ∈ ms
          add q k h t =
              let (zs, ran, z) = Returns-elim _ (further k) (through k h) in
              fl.0 k zs m ((hop k).1 h) ran ((z m).1 t)

          back : (q : List HexIdx) → m ≡ hops q → Extends path q → m ∈ ms
          back q e (one l' k at_l' h new last) =
              let same : l ≡ l' = cc in add q k (rw same h) (q, new, e, inl last)
          back q e (more l' k at_l' h new later) =
              let same : l ≡ l' = cc in add q k (rw same h) (q, new, e, inr later)

  module _ (sq : IsSquare b) where
    -- On a board of 17 * 17 cells, for a path that ends on it and fuel above the number of cells
    -- that the path has not visited, `collect_hop_paths_from` returns exactly the chains of hops
    -- that go on from the path and visit no cell twice.
    pub collect_hop_paths_from-Extensions :
        (E : Type 0) (fuel : ℕ) (path : List HexIdx) (l : HexIdx)
        → last? path ≡ some l
        → Inside l
        → unvisited 289 path < fuel
        → Returns (Extensions path) (collect_hop_paths_from {E = E} fuel b path)
    unfolding collect_hop_paths_from
    collect_hop_paths_from-Extensions E zero path l e i f = absurd (omega arith)
    collect_hop_paths_from-Extensions E (suc fuel) path l e i f = rw e (
        Returns-bind _ (Extensions path) (available_hops_from b l) _
          (available_hops_from-Hop b sq E l i)
          λ ks hop. flat_map-Extensions E _ path l ks e hop λ k h.
            extend_path-Through E (λ p. collect_hop_paths_from fuel b p) path k
              λ new.
                let inside = Inside-of_cell b k none sq h.1.5 in
                collect_hop_paths_from-Extensions E fuel (path ++ k ∷ []) k (last?-append path k)
                  inside
                  (omega (
                    arith,
                    unvisited-append 289 path k (contains_of_not-mem path k new) inside
                        (flat-lt k inside),
                  )))
