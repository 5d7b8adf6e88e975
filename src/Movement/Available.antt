-- ===== src/Movement/Available.antt =====
-- src/sternhalma/board/movement.rs, `available_movements_from`, and the moves of the rules.
use mathlib.Core.List.{flatten}
use sternhamla_server.Prelude.{
  ◌≡◌, refl, ◌↔◌, ◌⊎◌, inl, inr, none, some, List, [], ◌∷◌, ◌∈◌, mem-append, mem-append_left,
  mem-append_right, ok, Opt, nothing, ◌>>=◌, Answers, Answers-imp, Answers-bind, Answers-ok,
  Answers-of_Returns, ◌≢◌, Returns, Returns-bind, filter_map, filter_map-Collects, Collects,
  Option-cases, arith,
}
use sternhamla_server.Board.{Board}
use sternhamla_server.Board.Hex.{HexIdx, Inside}
use sternhamla_server.Board.Cells.{IsSquare, cell, Inside-of_cell}
use sternhamla_server.Board.Direction.{HexDirection, nw, directions, nearest_neighbor}
use sternhamla_server.Board.Neighbours.{Toward, Toward-det, nearest_neighbor-Finds}
use sternhamla_server.Movement.{
  Movement, move, hops, movements_towards, available_movements_from, collect_hop_paths_from,
  hop_fuel,
}
use sternhamla_server.Movement.Hops.{HopIn, mem-directions}
use sternhamla_server.Movement.Paths.{
  Extends, one, more, Extensions, collect_hop_paths_from-Extensions, unvisited-le,
}

mem-flatten :
    {A : Type 0} (xss : List (List A)) (a : A)
    → a ∈ flatten xss
    → (xs : List A) × (xs ∈ xss) × (a ∈ xs)
unfolding flatten
mem-flatten [] a m = absurd m
mem-flatten (xs ∷ xss) a m = elim (mem-append a xs (flatten xss) m) [
  | inl here ↦ (xs, inl refl, here)
  | inr there ↦ let (ys, p, q) = mem-flatten xss a there in (ys, inr p, q)
]

flatten-mem :
    {A : Type 0} (xss : List (List A)) (xs : List A) (a : A) → xs ∈ xss → a ∈ xs → a ∈ flatten xss
unfolding flatten
flatten-mem [] xs a m n = absurd m
flatten-mem (ys ∷ xss) xs a (inl same) n = mem-append_left a ys (flatten xss) (rw same at n)
flatten-mem (ys ∷ xss) xs a (inr later) n =
    mem-append_right a ys (flatten xss) (flatten-mem xss xs a later n)

module _ {T : Type 0} (b : Board T) where
  -- The moves of a piece at `i`: a step to an empty neighbour, or one or more hops that visit no
  -- cell twice.
  abbrev pub Legal : HexIdx → Movement → Type 0
  Legal i m =
      ((d : HexDirection) × (k : HexIdx) × Toward d i k × (cell b k ≡ some none) × (m ≡ move i k))
      ⊎ ((q : List HexIdx) × (m ≡ hops q) × Extends b (i ∷ []) q)

  -- Those that set out in one direction.
  abbrev LegalIn : HexDirection → HexIdx → Movement → Type 0
  LegalIn d i m =
      ((k : HexIdx) × Toward d i k × (cell b k ≡ some none) × (m ≡ move i k))
      ⊎ ((k : HexIdx) × (q : List HexIdx) × HopIn b d i k
          × (m ≡ hops q)
          × ((q ≡ i ∷ k ∷ []) ⊎ Extends b (i ∷ k ∷ []) q))

  abbrev SetsOut : HexDirection → HexIdx → Opt (List Movement) → Type 0
  SetsOut d i =
      Answers (λ ms. (m : Movement) → (m ∈ ms) ↔ LegalIn d i m) ((m : Movement) → ¬ LegalIn d i m)

  two_steps : (d : HexDirection) (i n k : HexIdx) → Toward d i n → Toward d n k → k ≢ i
  two_steps nw (i, j) (k, l) (p, q) h g x = absurd (ground arith)
  two_steps _ (i, j) (k, l) (p, q) h g x = absurd (ground arith)

  -- With a piece on the neighbour, only hops set out.
  LegalIn-over :
      (d : HexDirection) (i n : HexIdx) (x : T) (m : Movement)
      → Toward d i n
      → cell b n ≡ some (some x)
      → LegalIn d i m
      → (k : HexIdx) × (q : List HexIdx) × Toward d n k
        × (cell b k ≡ some none)
        × (m ≡ hops q)
        × ((q ≡ i ∷ k ∷ []) ⊎ Extends b (i ∷ k ∷ []) q)
  LegalIn-over d i n x m t c (inl (k, u, g, e')) = absurd (cc (Toward-det d i n k t u, c, g))
  LegalIn-over d i n x m t c (inr (k, q, g, e', p)) =
      (k, q, rw (Toward-det d i n g.0 t g.2) g.4, g.5, e', p)

  module _ (sq : IsSquare b) where
    further-Extensions :
        (E : Type 0) (i k : HexIdx)
        → Inside k
        → Returns
            (Extensions b (i ∷ k ∷ []))
            (collect_hop_paths_from {E = E} hop_fuel b (i ∷ k ∷ []))
    further-Extensions E i k inside =
        collect_hop_paths_from-Extensions b sq E hop_fuel (i ∷ k ∷ []) k refl inside
          (omega (arith, unvisited-le 289 (i ∷ k ∷ [])))

    -- The first hop, and what goes on from it.
    hop_on :
        (d : HexDirection) (i n : HexIdx) (x : T) (k : HexIdx)
        → Toward d i n
        → cell b n ≡ some (some x)
        → Toward d n k
        → cell b k ≡ some none
        → Returns
            (λ ms. (m : Movement) → (m ∈ ms) ↔ LegalIn d i m)
            (collect_hop_paths_from {E = Unit {0}} hop_fuel b (i ∷ k ∷ []) >>= λ further.
              ok (hops (i ∷ k ∷ []) ∷ further))
    hop_on d i n x k t c u free =
        Returns-bind (Extensions b (i ∷ k ∷ [])) (λ ms. (m : Movement) → (m ∈ ms) ↔ LegalIn d i m)
          (collect_hop_paths_from hop_fuel b (i ∷ k ∷ []))
          (λ further. ok (hops (i ∷ k ∷ []) ∷ further))
          (further-Extensions (Unit {0}) i k (Inside-of_cell b k none sq free))
          λ fs found m. (
            λ p. elim p [
              | inl first ↦ inr (k, i ∷ k ∷ [], (n, x, t, c, u, free), first, inl refl)
              | inr later ↦
                  let (q, e', x') = (found m).0 later in
                  inr (k, q, (n, x, t, c, u, free), e', inr x')
            ],
            λ l.
                let (k', q, u', g, e', p) = LegalIn-over d i n x m t c l in
                let same = Toward-det d n k' k u' u in
                elim p [
                  | inl last ↦ inl (rw (e', last, same))
                  | inr later ↦ inr ((found m).1 (q, e', rw same at later))
                ],
          )

    hop_over :
        (d : HexDirection) (i n : HexIdx) (x : T)
        → Toward d i n
        → cell b n ≡ some (some x)
        → SetsOut d i (
            nearest_neighbor b n d >>= λ r. elim r.1 [
              | some _ ↦ nothing
              | none ↦ collect_hop_paths_from hop_fuel b (i ∷ r.0 ∷ []) >>= λ further.
                  ok (hops (i ∷ r.0 ∷ []) ∷ further)
            ])
    hop_over d i n x t c =
        Answers-bind _ _ _ _ (nearest_neighbor b n d) _
          (nearest_neighbor-Finds b sq n d (Inside-of_cell b n (some x) sq c))
          (λ r h. elim (Option-cases r.1) [
            | inl empty ↦
                let free : cell b r.0 ≡ some none = rw empty at h.1 in
                rw empty (
                  Answers-of_Returns
                    (λ (ms : List Movement). (m : Movement) → (m ∈ ms) ↔ LegalIn d i m)
                    ((m : Movement) → ¬ LegalIn d i m)
                    (collect_hop_paths_from hop_fuel b (i ∷ r.0 ∷ []) >>= λ further.
                      ok (hops (i ∷ r.0 ∷ []) ∷ further))
                    (hop_on d i n x r.0 t c h.0 free))
            | inr (y, full) ↦ rw full (λ m g.
                let (k, q, u, c', _, _) = LegalIn-over d i n x m t c g in
                cc (Toward-det d n r.0 k h.0 u, h.1, full, c'))
          ])
          (λ none_there m g.
            let (k, q, u, c', _, _) = LegalIn-over d i n x m t c g in cc (none_there k u, c'))

    movements_towards-SetsOut :
        (d : HexDirection) (i : HexIdx) → Inside i → SetsOut d i (movements_towards b i d)
    unfolding movements_towards
    movements_towards-SetsOut d i inside =
        Answers-bind _ _ _ _ (nearest_neighbor b i d) _ (nearest_neighbor-Finds b sq i d inside)
          (λ r h. elim (Option-cases r.1) [
            | inl empty ↦ rw empty (λ m. (
              λ p. elim p [
                | inl e' ↦ inl (r.0, h.0, rw empty at h.1, e')
                | inr none_left ↦ absurd none_left
              ],
              λ l. elim l [
                | inl (k, u, c, e') ↦ inl (rw (e', Toward-det d i k r.0 u h.0))
                | inr (k, q, g, e', p) ↦
                    absurd (cc (Toward-det d i r.0 g.0 h.0 g.2, h.1, empty, g.3))
              ],
            ))
            | inr (y, full) ↦ rw full (hop_over d i r.0 y h.0 (rw full at h.1))
          ])
          (λ none_there m g. elim g [
            | inl (k, u, c, e') ↦ cc (none_there k u, c)
            | inr (k, q, h, e', p) ↦ cc (none_there h.0 h.2, h.3)
          ])

    fresh : (d : HexDirection) (i k : HexIdx) → HopIn b d i k → ¬ (k ∈ i ∷ [])
    fresh d i k h m = elim m [
      | inl same ↦ two_steps d i h.0 k h.2 h.4 same
      | inr nowhere ↦ absurd nowhere
    ]

    -- What the directions add up to.
    Legal-of_LegalIn : (d : HexDirection) (i : HexIdx) (m : Movement) → LegalIn d i m → Legal i m
    Legal-of_LegalIn d i m (inl (k, u, c, e')) = inl (d, k, u, c, e')
    Legal-of_LegalIn d i m (inr (k, q, h, e', p)) = inr (
      q,
      e',
      elim p [
        | inl last ↦ one i k refl (d, h) (fresh d i k h) last
        | inr later ↦ more i k refl (d, h) (fresh d i k h) later
      ],
    )

    LegalIn-of_Legal : (i : HexIdx) (m : Movement) → Legal i m → (d : HexDirection) × LegalIn d i m
    LegalIn-of_Legal i m (inl (d, k, u, c, e')) = (d, inl (k, u, c, e'))
    LegalIn-of_Legal i m (inr (q, e', x)) = first q e' x
      where
        first :
            (q : List HexIdx)
            → m ≡ hops q
            → Extends b (i ∷ []) q
            → (d : HexDirection) × LegalIn d i m
        first q e' (one l k at_l (d, h) new last) =
            let same : i ≡ l = cc in (d, inr (k, q, rw same h, e', inl last))
        first q e' (more l k at_l (d, h) new later) =
            let same : i ≡ l = cc in (d, inr (k, q, rw same h, e', inr later))

    -- On a board of 17 * 17 cells and for an index on it, `available_movements_from` returns, and
    -- a movement is in its list exactly when it is a step to an empty neighbour, or a chain of
    -- one or more hops that visits no cell twice.
    pub available_movements_from-Legal :
        (E : Type 0) (i : HexIdx)
        → Inside i
        → Returns
            (λ ms. (m : Movement) → (m ∈ ms) ↔ Legal i m)
            (available_movements_from {E = E} b i)
    unfolding available_movements_from
    available_movements_from-Legal E i inside =
        Returns-bind (Collects (movements_towards b i) directions) _
          (filter_map (movements_towards b i) directions) _
          (filter_map-Collects (movements_towards b i) E directions safe)
          (λ mss c m.
            (λ p. fwd mss c m (mem-flatten mss m p), λ l. bwd mss c m (LegalIn-of_Legal i m l)))
      where
        out : (d : HexDirection) → SetsOut d i (movements_towards b i d)
        out d = movements_towards-SetsOut d i inside

        safe :
            (d : HexDirection)
            → d ∈ directions
            → Answers (λ _. Unit {0}) (Unit {0}) (movements_towards b i d)
        safe d _ = Answers-imp _ _ _ _ (movements_towards b i d) (λ _ _. tt) (λ _. tt) (out d)

        fwd :
            (mss : List (List Movement))
            → Collects (movements_towards b i) directions mss
            → (m : Movement) → ((ms : List Movement) × (ms ∈ mss) × (m ∈ ms))
            → Legal i m
        fwd mss c m p =
            let (d, _, at_d) = c.1 p.0 p.1 in
            let said = rw at_d at (out d) in Legal-of_LegalIn d i m ((said m).0 p.2)

        bwd :
            (mss : List (List Movement))
            → Collects (movements_towards b i) directions mss
            → (m : Movement) → ((d : HexDirection) × LegalIn d i m)
            → m ∈ flatten mss
        bwd mss c m p =
            let (ms, ran, h) =
              Answers-ok _ _ (movements_towards b i p.0) (out p.0) (λ bad. bad m p.1) in
            flatten-mem mss ms m (c.0 p.0 ms (mem-directions p.0) ran) ((h m).1 p.1)
