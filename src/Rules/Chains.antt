-- ===== src/Rules/Chains.antt =====
-- Chains of hops on a board, and jumps by the rules: paths that visit no cell twice lead to the same
-- cells as jumps of any number.
use sternhamla_server.Prelude.{
  ◌+◌, ◌%◌, ◌≡◌, ◌≢◌, refl, sym, ◌∙◌, ap, ◌⊎◌, inl, inr, ◌↔◌, true, Option, none, some, List, [],
  ◌∷◌, ◌++◌, contains, contains-mem, not-mem_of_contains, ◌∈◌, mem-append, last?, last?-append,
  Bool-cases, ◌==◌, arith,
}
use sternhamla_server.Player.{Player}
use sternhamla_server.Board.{Board}
use sternhamla_server.Board.Hex.{HexIdx, idx_eq, idx_beq_iff}
use sternhamla_server.Board.Cells.{cell}
use sternhamla_server.Board.Score.{IsStar, on_board}
use sternhamla_server.Board.Direction.{HexDirection, nw, ne, w, sw, se}
use sternhamla_server.Board.Neighbours.{Toward}
use sternhamla_server.Movement.Hops.{Hop}
use sternhamla_server.Movement.Paths.{Extends, one, more}
use sternhamla_server.Rules.{Pieces, Vacant, Jump, Jumps, jump, again, lift}
use sternhamla_server.Rules.Star.{contains-on_star}

-- The pieces of a board, as the rules see them.
abbrev pub piece : Option (Option Player) → Option Player
piece none = none
piece (some o) = o

abbrev pub pieces_on : Board Player → Pieces
pieces_on b k = piece (cell b k)

pub piece_iff : (c : Option (Option Player)) (p : Player) → (c ≡ some (some p)) ↔ (piece c ≡ some p)
piece_iff none p = (λ h. absurd (cc), λ h. absurd (cc))
piece_iff (some o) p = (λ h. ground (arith, h), λ h. ap some h)

piece-none : (c : Option (Option Player)) → on_board c ≡ true → piece c ≡ none → c ≡ some none
piece-none none h e = absurd (cc)
piece-none (some o) h e = ap some e

module _ (b : Board Player) (v : IsStar b) where
  pub pieces_on_iff :
      (k : HexIdx) (p : Player) → (cell b k ≡ some (some p)) ↔ (pieces_on b k ≡ some p)
  pieces_on_iff k p = piece_iff (cell b k) p

  pub Vacant-iff : (k : HexIdx) → (cell b k ≡ some none) ↔ Vacant (pieces_on b) k
  Vacant-iff k = (
    λ h. (ground (arith, v.shape k, contains-on_star k, h), rw h refl),
    λ h. piece-none (cell b k) (v.shape k ∙ contains-on_star k ∙ h.0) h.1,
  )

-- Jumps change each coordinate by an even number.
abbrev Even : HexIdx → HexIdx → Type 0
Even a l = ((a.0 + l.0) % 2 ≡ 0) × ((a.1 + l.1) % 2 ≡ 0)

Even-jump :
    (a l n k : HexIdx) (d : HexDirection) → Even a l → Toward d l n → Toward d n k → Even a k
Even-jump a l n k nw h s t = omega arith
Even-jump a l n k ne h s t = omega arith
Even-jump a l n k w h s t = omega arith
Even-jump a l n k HexDirection.e h s t = omega arith
Even-jump a l n k sw h s t = omega arith
Even-jump a l n k se h s t = omega arith

-- So a jump never goes over the cell where the first one began.
Even-over : (a l n : HexIdx) (d : HexDirection) → Even a l → Toward d l n → n ≢ a
Even-over (i, j) l (x, y) nw h s same = absurd (ground (arith, same))
Even-over (i, j) l (x, y) ne h s same = absurd (ground (arith, same))
Even-over (i, j) l (x, y) w h s same = absurd (ground (arith, same))
Even-over (i, j) l (x, y) HexDirection.e h s same = absurd (ground (arith, same))
Even-over (i, j) l (x, y) sw h s same = absurd (ground (arith, same))
Even-over (i, j) l (x, y) se h s same = absurd (ground (arith, same))

pub lift_other : (f : Pieces) (a k : HexIdx) → k ≢ a → lift f a k ≡ f k
lift_other f a k other = ground (arith, idx_beq_iff a k, λ (same : a ≡ k). other (sym same))

lift-none : (f : Pieces) (a k : HexIdx) → f k ≡ none → lift f a k ≡ none
lift-none f a k h = ground (arith, h)

lift-some : (f : Pieces) (a k : HexIdx) (p : Player) → lift f a k ≡ some p → f k ≡ some p
lift-some f a k p h = ground (arith, h)

module _ (b : Board Player) (v : IsStar b) (a : HexIdx) where
  Hop-Jump : (l k : HexIdx) → Even a l → Hop b l k → Jump (lift (pieces_on b) a) l k
  Hop-Jump l k h (d, (n, x, near, taken, far, free)) =
      let vacant = (Vacant-iff b v k).0 free in
      record {
        direction = d;
        over = n;
        piece = x;
        near = near;
        taken =
            lift_other (pieces_on b) a n (Even-over a l n d h near)
            ∙ (pieces_on_iff b v n x).0 taken;
        far = far;
        free = (vacant.0, lift-none (pieces_on b) a k vacant.1);
      }

  Jump-Hop : (l k : HexIdx) → k ≢ a → Jump (lift (pieces_on b) a) l k → Hop b l k
  Jump-Hop l k other j = (
    j.direction,
    (
      j.over,
      j.piece,
      j.near,
      (pieces_on_iff b v j.over j.piece).1 (lift-some (pieces_on b) a j.over j.piece j.taken),
      j.far,
      (Vacant-iff b v k).1 (j.free.0, sym (lift_other (pieces_on b) a k other) ∙ j.free.1),
    ),
  )

  -- A path from `a` that visits no cell twice, hop after hop.
  data Trail : List HexIdx → HexIdx → Type 0 where
    start : (q : List HexIdx) (l : HexIdx) → q ≡ a ∷ [] → l ≡ a → Trail q l
    hop :
        (q q' : List HexIdx) (l k : HexIdx)
        → Trail q l
        → Hop b l k
        → ¬ (k ∈ q)
        → q' ≡ q ++ k ∷ []
        → Trail q' k

  -- The path up to a cell that it visits.
  cut : (q : List HexIdx) (l c : HexIdx) → Trail q l → c ∈ q → (q' : List HexIdx) × Trail q' c
  cut q l c (Trail.start q1 l1 e same) m =
      elim (rw e at m) as (λ _. (q' : List HexIdx) × Trail q' c) [
        | inl here ↦ (a ∷ [], Trail.start (a ∷ []) c refl here)
        | inr absent ↦ absurd absent
      ]
  cut q k c (Trail.hop q0 q1 l k1 t h new e) m =
      let earlier = λ (n : c ∈ q0). cut q0 l c t n in
      elim (mem-append c q0 (k1 ∷ []) (rw e at m)) [
        | inl old ↦ earlier old
        | inr last ↦ elim last [
          | inl same ↦ (q1, rw same (Trail.hop q0 q1 l k1 t h new e))
          | inr absent ↦ absurd absent
        ]
      ]

  -- However the jumps go, a path that visits no cell twice leads to the same cell.
  Jumps-Trail : (c : HexIdx) → Jumps (lift (pieces_on b) a) a c → (q : List HexIdx) × Trail q c
  Jumps-Trail c (jump c1 j) = elim (Bool-cases (c1 == a)) [
    | inl back ↦ (a ∷ [], Trail.start (a ∷ []) c1 refl ((idx_beq_iff c1 a).0 back))
    | inr other ↦
        let away : c1 ≢ a = λ same. cc (other, (idx_beq_iff c1 a).1 same) in
        (
          a ∷ c1 ∷ [],
          Trail.hop (a ∷ []) (a ∷ c1 ∷ []) a c1 (Trail.start (a ∷ []) a refl refl)
              (Jump-Hop a c1 away j) (λ m. elim m [ inl same ↦ away same | inr absent ↦ absent ])
              refl,
        )
  ]
  Jumps-Trail c (again m c1 js j) =
      let (q, t) = Jumps-Trail m js in
      elim (Bool-cases (c1 == a)) [
        | inl back ↦ (a ∷ [], Trail.start (a ∷ []) c1 refl ((idx_beq_iff c1 a).0 back))
        | inr other ↦ elim (Bool-cases (contains q c1)) [
          | inl seen ↦ cut q m c1 t (contains-mem q c1 seen)
          | inr fresh ↦
              let away : c1 ≢ a = λ same. cc (other, (idx_beq_iff c1 a).1 same) in
              (
                q ++ c1 ∷ [],
                Trail.hop q (q ++ c1 ∷ []) m c1 t (Jump-Hop m c1 away j)
                    (not-mem_of_contains q c1 fresh) refl,
              )
        ]
      ]

  Extends-Hop :
      (path q q' : List HexIdx) (l k : HexIdx)
      → Extends b path q
      → last? q ≡ some l
      → Hop b l k
      → ¬ (k ∈ q)
      → q' ≡ q ++ k ∷ []
      → Extends b path q'
  Extends-Hop path q q' l k (one l0 k0 at_l0 h0 new0 e0) at_l h new e =
      let same : k0 ≡ l = ground (arith, e0, at_l, last?-append path k0) in
      more l0 k0 at_l0 h0 new0
        (one k0 k (last?-append path k0) (rw same h) (rw e0 at new) (e ∙ ap (λ r. r ++ k ∷ []) e0))
  Extends-Hop path q q' l k (more l0 k0 at_l0 h0 new0 later) at_l h new e =
      more l0 k0 at_l0 h0 new0 (Extends-Hop (path ++ k0 ∷ []) q q' l k later at_l h new e)

  Trail-Extends :
      (q : List HexIdx) (c : HexIdx)
      → Trail q c
      → (last? q ≡ some c) × (((q ≡ a ∷ []) × (c ≡ a)) ⊎ Extends b (a ∷ []) q)
  Trail-Extends q c (Trail.start q1 c1 e same) = (rw (e, same) refl, inl (e, same))
  Trail-Extends q c (Trail.hop q0 q1 l k t h new e) =
      let (at_l, x) = Trail-Extends q0 l t in
      (
        ap last? e ∙ last?-append q0 k,
        inr (elim x [
          | inl (alone, same) ↦
              one l k (ap last? (sym alone) ∙ at_l) h (rw alone at new)
                (e ∙ ap (λ r. r ++ k ∷ []) alone)
          | inr longer ↦ Extends-Hop (a ∷ []) q0 q1 l k longer at_l h new e
        ]),
      )

  onward :
      (l k : HexIdx)
      → Hop b l k
      → Even a l
      → ((l ≡ a) ⊎ Jumps (lift (pieces_on b) a) a l)
      → Jumps (lift (pieces_on b) a) a k
  onward l k h even (inl same) = jump k (rw same at (Hop-Jump l k even h))
  onward l k h even (inr js) = again l k js (Hop-Jump l k even h)

  -- A path of hops that goes on from one that ends at `l`, and its last cell.
  Extends-Jumps :
      (x : Player)
      → cell b a ≡ some (some x)
      → (path q : List HexIdx) (l : HexIdx) → Extends b path q
      → last? path ≡ some l
      → Even a l
      → ((l ≡ a) ⊎ Jumps (lift (pieces_on b) a) a l)
      → (c : HexIdx) × (last? q ≡ some c) × (c ≢ a) × Jumps (lift (pieces_on b) a) a c
  Extends-Jumps x at_a path q l (one l0 k at_l0 h new e) at_l even before =
      let same : l0 ≡ l = ground (arith, at_l0, at_l) in
      let h' : Hop b l k = rw same at h in
      (
        k,
        ap last? e ∙ last?-append path k,
        (λ back. cc (h'.1.5, at_a, back)),
        onward l k h' even before,
      )
  Extends-Jumps x at_a path q l (more l0 k at_l0 h new later) at_l even before =
      let same : l0 ≡ l = ground (arith, at_l0, at_l) in
      let h' : Hop b l k = rw same at h in
      Extends-Jumps x at_a (path ++ k ∷ []) q k later (last?-append path k)
        (Even-jump a l h'.1.0 k h'.0 even h'.1.2 h'.1.4) (inr (onward l k h' even before))

  -- The chains of the code and the jumps of the rules lead to the same cells.
  pub Extends-iff :
      (x : Player)
      → cell b a ≡ some (some x)
      → (c : HexIdx)
      → ((q : List HexIdx) × Extends b (a ∷ []) q × (last? q ≡ some c))
        ↔ ((c ≢ a) × Jumps (lift (pieces_on b) a) a c)
  Extends-iff x at_a c = (
    λ (q, ext, at_c).
        let (c', at_c', away, js) =
          Extends-Jumps x at_a (a ∷ []) q a ext refl (omega arith, omega arith) (inl refl) in
        let same : c' ≡ c = ground (arith, at_c, at_c') in
        (λ back. away (same ∙ back), rw same at js),
    λ (away, js).
        let (q, t) = Jumps-Trail c js in
        let (at_c, shape) = Trail-Extends q c t in
        elim shape [ inl trivial ↦ absurd (away trivial.1) | inr ext ↦ (q, ext, at_c) ],
  )
