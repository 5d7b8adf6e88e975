-- ===== src/Server/Moves.antt =====
-- src/server/mod.rs, the list of moves that `handle_turn` makes.
use sternhamla_server.Prelude.{
  ℕ, ◌≡◌, ◌↔◌, ◌⊎◌, inl, inr, sym, ap, ◌∙◌, some, none, List, ◌∈◌, ok, Returns, Returns-imp,
  Returns-bind, Maps, try_map, try_map-Maps,
}
use sternhamla_server.Player.{Player}
use sternhamla_server.Board.Hex.{HexIdx}
use sternhamla_server.Board.Cells.{cell}
use sternhamla_server.Movement.{Movement, MovementIndices, to_indices}
use sternhamla_server.Movement.Player.{LegalFor}
use sternhamla_server.Movement.Apply.{Acceptable-indices}
use sternhamla_server.Game.{Game, playing, Scores, iter_available_moves}
use sternhamla_server.Game.Invariant.{Inv}
use sternhamla_server.Game.Available.{Lists, iter_available_moves-LegalFor, LegalFor-Acceptable}
use sternhamla_server.Server.Turn.{available_moves}

-- The piece of the player goes to an empty cell, or comes back to its start.
abbrev pub Playable : Game → Player → MovementIndices → Type 0
Playable g p ends =
    (cell g.board ends.0 ≡ some (some p)) × ((cell g.board ends.1 ≡ some none) ⊎ (ends.1 ≡ ends.0))

module _ (unique : List MovementIndices → List MovementIndices)
    (same_elements : (l : List MovementIndices) (m : MovementIndices) → (m ∈ unique l) ↔ (m ∈ l))
    (g : Game) (p : Player) (turns : ℕ) (scores : Scores) (inv : Inv g)
    (e : g.status ≡ playing p turns scores) where
  ends_of :
      (E : Type 0) (m : Movement)
      → LegalFor g.board p m
      → (from to : HexIdx) × (to_indices {E = E} m ≡ ok (from, to)) × Playable g p (from, to)
  ends_of E m l =
      let (from, to, made, start, free) =
        Acceptable-indices E g.board m p (LegalFor-Acceptable g p turns scores inv e m l) in
      (from, to, made, (start, free))

  abbrev pub Offered : (E : Type 0) → MovementIndices → Type 0
  Offered E ends = (m : Movement) × LegalFor g.board p m × (to_indices {E = E} m ≡ ok ends)

  -- In a game that satisfies the invariant and goes on, `available_moves` returns, and a pair of
  -- indices is in its list exactly when it is made of the two ends of a legal move of the player
  -- to move. `unique` keeps the elements of a list and adds none.
  pub available_moves-Offered :
      (E : Type 0)
      → Returns
          (λ list. (ends : MovementIndices) → (ends ∈ list) ↔ Offered E ends)
          (available_moves {E = E} unique g)
  unfolding available_moves
  available_moves-Offered E =
      Returns-bind (Lists g p turns scores inv e) _ (iter_available_moves g) _
        (iter_available_moves-LegalFor g p turns scores inv e E)
        λ ms lists.
          Returns-bind (Maps to_indices ms) _ (try_map to_indices ms) _
            (try_map-Maps to_indices ms (λ m at_m. returns m ((lists m).0 at_m)))
            λ list maps ends. (
              λ at_ends.
                  let (m, at_m, made) = (maps ends).0 ((same_elements list ends).0 at_ends) in
                  (m, (lists m).0 at_m, made),
              λ (m, l, made). (same_elements list ends).1 ((maps ends).1 (m, (lists m).1 l, made)),
            )
    where
      returns :
          (m : Movement) → LegalFor g.board p m → Returns (λ _. Unit {0}) (to_indices {E = E} m)
      returns m l = let (from, to, made, playable) = ends_of E m l in rw made tt

  pub available_moves-Playable :
      (E : Type 0)
      → Returns
          (λ list. (ends : MovementIndices) → ends ∈ list → Playable g p ends)
          (available_moves {E = E} unique g)
  available_moves-Playable E =
      Returns-imp _ _ (available_moves unique g)
        (λ list offered ends at_ends.
          let (m, l, made) = (offered ends).0 at_ends in
          let (from, to, made', playable) = ends_of E m l in
          let same = sym made' ∙ made in
          let same_from : from ≡ ends.0 = cc in
          let same_to : to ≡ ends.1 = cc in
          (
            ap (cell g.board) (sym same_from) ∙ playable.0,
            landing from to ends same_from same_to playable.1,
          ))
        (available_moves-Offered E)
    where
      landing :
          (from to : HexIdx) (ends : MovementIndices)
          → from ≡ ends.0
          → to ≡ ends.1
          → ((cell g.board to ≡ some none) ⊎ (to ≡ from))
          → (cell g.board ends.1 ≡ some none) ⊎ (ends.1 ≡ ends.0)
      landing from to ends same_from same_to (inl empty) =
          inl (ap (cell g.board) (sym same_to) ∙ empty)
      landing from to ends same_from same_to (inr back) = inr (sym same_to ∙ back ∙ same_from)
