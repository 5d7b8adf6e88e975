-- ===== src/Rules/Moves.antt =====
-- The list of a turn against the rules.
use sternhamla_server.Prelude.{
  ℕ, ◌≡◌, refl, ◌∙◌, ap, inl, inr, ◌↔◌, some, List, [], ◌∷◌, ◌++◌, ◌∈◌, last?, first?, Exec, ok,
  panic, Returns, Returns-imp, Option-cases,
}
use sternhamla_server.Player.{Player}
use sternhamla_server.Board.{Board}
use sternhamla_server.Board.Hex.{HexIdx}
use sternhamla_server.Board.Score.{IsStar}
use sternhamla_server.Movement.{Movement, move, hops, MovementIndices, to_indices}
use sternhamla_server.Movement.Paths.{Extends, one, more}
use sternhamla_server.Movement.Player.{LegalFor}
use sternhamla_server.Game.{Game, playing, Scores}
use sternhamla_server.Game.Invariant.{Inv}
use sternhamla_server.Server.Turn.{available_moves}
use sternhamla_server.Server.Moves.{available_moves-Offered}
use sternhamla_server.Rules.{MayMove}
use sternhamla_server.Rules.Chains.{pieces_on, pieces_on_iff, Vacant-iff, Extends-iff}

module _ (E : Type 0) (b : Board Player) (v : IsStar b) (p : Player) where
  -- The ends of a move of the code.
  abbrev pub Leads : HexIdx → HexIdx → Type 0
  Leads a c = (m : Movement) × LegalFor b p m × (to_indices {E = E} m ≡ ok (a, c))

  first?-append :
      (path : List HexIdx) (k a : HexIdx) → first? path ≡ some a → first? (path ++ k ∷ []) ≡ some a
  first?-append [] k a h = absurd (cc)
  first?-append (i ∷ path) k a h = h

  first?-Extends :
      (path q : List HexIdx) (a : HexIdx)
      → Extends b path q
      → first? path ≡ some a
      → first? q ≡ some a
  first?-Extends path q a (one l k at_l h new e) at_a = ap first? e ∙ first?-append path k a at_a
  first?-Extends path q a (more l k at_l h new later) at_a =
      first?-Extends (path ++ k ∷ []) q a later (first?-append path k a at_a)

  ends_of :
      (q : List HexIdx) (a c : HexIdx)
      → first? q ≡ some a
      → last? q ≡ some c
      → to_indices {E = E} (hops q) ≡ ok (a, c)
  unfolding to_indices
  ends_of q a c h t = rw (h, t) refl

  same_ends :
      (r : Exec E MovementIndices) (i k a c : HexIdx)
      → r ≡ ok (i, k)
      → r ≡ ok (a, c)
      → (i ≡ a) × (k ≡ c)
  same_ends r i k a c h g = (cc, cc)

  panic-ok : (r : Exec E MovementIndices) (ends : MovementIndices) → r ≡ panic → r ≡ ok ends → ⊥
  panic-ok r ends h g = cc

  of_ends :
      (q : List HexIdx) (i a c : HexIdx)
      → first? q ≡ some i
      → to_indices {E = E} (hops q) ≡ ok (a, c)
      → (i ≡ a) × (last? q ≡ some c)
  unfolding to_indices
  of_ends q i a c h ends = elim (Option-cases (last? q)) [
    | inl ended ↦ absurd (panic-ok _ (a, c) (rw (h, ended) refl) ends)
    | inr last ↦
        let (from, to) = same_ends _ i last.0 a c (rw (h, last.1) refl) ends in
        (from, last.1 ∙ ap some to)
  ]

  Leads-MayMove : (a c : HexIdx) → Leads a c → MayMove (pieces_on b) p a c
  unfolding to_indices
  Leads-MayMove a c (m, (i, at_i, inl (d, k, near, free, e)), ends) =
      let (from, to) = same_ends (to_indices m) i k a c (rw e refl) ends in
      let start = rw from at at_i in
      let vacant = rw to at free in
      (
        (pieces_on_iff b v a p).0 start,
        (λ back. cc (start, vacant, back)),
        inl (d, rw (from, to) at near, (Vacant-iff b v c).0 vacant),
      )
  Leads-MayMove a c (m, (i, at_i, inr (q, e, ext)), ends) =
      let (from, at_c) = of_ends q i a c (first?-Extends (i ∷ []) q i ext refl) (rw e at ends) in
      let start = rw from at at_i in
      let (away, js) = (Extends-iff b v a p start c).0 (q, rw from at ext, at_c) in
      ((pieces_on_iff b v a p).0 start, away, inr js)

  MayMove-Leads : (a c : HexIdx) → MayMove (pieces_on b) p a c → Leads a c
  unfolding to_indices
  MayMove-Leads a c (at_a, away, inl (d, near, free)) = (
    move a c,
    (a, (pieces_on_iff b v a p).1 at_a, inl (d, c, near, (Vacant-iff b v c).1 free, refl)),
    refl,
  )
  MayMove-Leads a c (at_a, away, inr js) =
      let start = (pieces_on_iff b v a p).1 at_a in
      let (q, ext, at_c) = (Extends-iff b v a p start c).1 (away, js) in
      (
        hops q,
        (a, start, inr (q, refl, ext)),
        ends_of q a c (first?-Extends (a ∷ []) q a ext refl) at_c,
      )

  -- A pair of cells is the ends of a move of the player in the code exactly when the rules allow it.
  pub Leads-iff : (a c : HexIdx) → Leads a c ↔ MayMove (pieces_on b) p a c
  Leads-iff a c = (Leads-MayMove a c, MayMove-Leads a c)

-- In a game that satisfies the invariant and goes on, `available_moves` returns, and its list
-- holds exactly the pairs of a start and an end that the rules allow the player to move: a step
-- to a vacant neighbour, or any number of jumps with the piece lifted off its start, to another
-- cell than the start. `unique` keeps the elements of a list and adds none.
pub available_moves-MayMove :
    (unique : List MovementIndices → List MovementIndices)
    (same_elements : (l : List MovementIndices) (m : MovementIndices) → (m ∈ unique l) ↔ (m ∈ l))
    (E : Type 0) (g : Game) (p : Player) (turns : ℕ) (scores : Scores)
    → Inv g
    → g.status ≡ playing p turns scores
    → Returns
        (λ list. (a c : HexIdx) → ((a, c) ∈ list) ↔ MayMove (pieces_on g.board) p a c)
        (available_moves {E = E} unique g)
available_moves-MayMove unique same E g p turns scores inv e =
    Returns-imp _ _ (available_moves unique g)
      (λ list offered a c.
        let rules = Leads-iff E g.board inv.star p a c in
        (λ at_ends. rules.0 ((offered (a, c)).0 at_ends), λ may. (offered (a, c)).1 (rules.1 may)))
      (available_moves-Offered unique same g p turns scores inv e E)
