-- ===== src/Movement/Hops.antt =====
-- src/sternhalma/board/movement.rs, `available_hops_from`: one hop.
use sternhamla_server.Prelude.{
  ◌≡◌, ◌∙◌, ap, ◌↔◌, inl, inr, none, some, List, ◌∈◌, ok, Opt, nothing, Answers, Answers-imp,
  Answers-bind, ◌>>=◌, Returns, Returns-imp, Answers-ok, Collects, arith, filter_map-Collects,
  Option-cases,
}
use sternhamla_server.Board.{Board}
use sternhamla_server.Board.Hex.{HexIdx, Inside}
use sternhamla_server.Board.Cells.{IsSquare, cell, Inside-of_cell}
use sternhamla_server.Board.Direction.{HexDirection, nw, directions, nearest_neighbor}
use sternhamla_server.Board.Neighbours.{Toward, Toward-det, nearest_neighbor-Finds}
use sternhamla_server.Movement.{hop_towards, available_hops_from}

pub mem-directions : (d : HexDirection) → d ∈ directions
mem-directions nw = ground arith
mem-directions _ = ground arith

module _ {T : Type 0} (b : Board T) where
  -- Over an adjacent piece, straight on to an empty cell.
  abbrev pub HopIn : HexDirection → HexIdx → HexIdx → Type 0
  HopIn d i k =
      (n : HexIdx) × (x : T) × Toward d i n
      × (cell b n ≡ some (some x))
      × Toward d n k
      × (cell b k ≡ some none)

  abbrev pub Hop : HexIdx → HexIdx → Type 0
  Hop i k = (d : HexDirection) × HopIn d i k

  HopIn-det : (d : HexDirection) (i k l : HexIdx) → HopIn d i k → HopIn d i l → k ≡ l
  HopIn-det d i k l h g = Toward-det d h.0 k l h.4 (rw (Toward-det d i h.0 g.0 h.2 g.2) g.4)

  abbrev pub Lands : HexDirection → HexIdx → Opt HexIdx → Type 0
  Lands d i = Answers (HopIn d i) ((k : HexIdx) → ¬ HopIn d i k)

  module _ (sq : IsSquare b) where
    over :
        (d : HexDirection) (i n : HexIdx) (x : T)
        → Toward d i n
        → cell b n ≡ some (some x)
        → Lands d i (nearest_neighbor b n d >>= λ r. elim r.1 [ some _ ↦ nothing | none ↦ ok r.0 ])
    over d i n x t c =
        Answers-bind _ (HopIn d i) _ ((k : HexIdx) → ¬ HopIn d i k) (nearest_neighbor b n d) _
          (nearest_neighbor-Finds b sq n d (Inside-of_cell b n (some x) sq c))
          (λ r h. elim (Option-cases r.1) [
            | inl empty ↦ rw empty (n, x, t, c, h.0, rw empty at h.1)
            | inr (y, full) ↦ rw full (λ k g.
                cc (Toward-det d n r.0 k h.0 (rw (Toward-det d i n g.0 t g.2) g.4), h.1, full, g.5))
          ])
          (λ none_there k g. cc (none_there k (rw (Toward-det d i n g.0 t g.2) g.4), g.5))

    hop_towards-Lands : (d : HexDirection) (i : HexIdx) → Inside i → Lands d i (hop_towards b i d)
    unfolding hop_towards
    hop_towards-Lands d i inside =
        Answers-bind _ (HopIn d i) _ ((k : HexIdx) → ¬ HopIn d i k) (nearest_neighbor b i d) _
          (nearest_neighbor-Finds b sq i d inside)
          (λ r h. elim (Option-cases r.1) [
            | inl empty ↦ rw empty (λ k g. cc (Toward-det d i r.0 g.0 h.0 g.2, h.1, empty, g.3))
            | inr (y, full) ↦ rw full (over d i r.0 y h.0 (rw full at h.1))
          ])
          (λ none_there k g. cc (none_there g.0 g.2, g.3))

    -- On a board of 17 * 17 cells and for an index on it, `available_hops_from` returns, and an
    -- index is in its list exactly when it is an empty cell two steps away in a direction, over a
    -- cell with a piece.
    pub available_hops_from-Hop :
        (E : Type 0) (i : HexIdx)
        → Inside i
        → Returns (λ ks. (k : HexIdx) → (k ∈ ks) ↔ Hop i k) (available_hops_from {E = E} b i)
    unfolding available_hops_from
    available_hops_from-Hop E i inside =
        Returns-imp (Collects (hop_towards b i) directions)
          (λ ks. (k : HexIdx) → (k ∈ ks) ↔ Hop i k) (available_hops_from {E = E} b i) listed
          (filter_map-Collects (hop_towards b i) E directions safe)
      where
        lands : (d : HexDirection) → Lands d i (hop_towards b i d)
        lands d = hop_towards-Lands d i inside

        safe :
            (d : HexDirection)
            → d ∈ directions
            → Answers (λ _. Unit {0}) (Unit {0}) (hop_towards b i d)
        safe d _ = Answers-imp _ _ _ _ (hop_towards b i d) (λ _ _. tt) (λ _. tt) (lands d)

        listed :
            (ks : List HexIdx)
            → Collects (hop_towards b i) directions ks
            → (k : HexIdx) → (k ∈ ks) ↔ Hop i k
        listed ks c k = (
          λ m. let (d, _, at_d) = c.1 k m in (d, rw at_d at (lands d)),
          λ h.
              let (k', at_d, h') =
                Answers-ok _ _ (hop_towards b i h.0) (lands h.0) (λ bad. bad k h.1) in
              c.0 h.0 k (mem-directions h.0) (at_d ∙ ap ok (HopIn-det h.0 i k' k h' h.1)),
        )
