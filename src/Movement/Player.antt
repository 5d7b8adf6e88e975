-- ===== src/Movement/Player.antt =====
-- src/sternhalma/board/movement.rs, `iter_player_movements`.
use sternhamla_server.Prelude.{
  ◌≡◌, ◌↔◌, some, List, ◌∈◌, ok, Returns, Returns-imp, Returns-bind, Returns-elim, Flattens,
  flat_map-Flattens, Eq,
}
use sternhamla_server.Board.{Board, iter_player_indices}
use sternhamla_server.Board.Hex.{HexIdx}
use sternhamla_server.Board.Cells.{IsSquare, cell, Inside-of_cell}
use sternhamla_server.Board.Pieces.{iter_player_indices-cell}
use sternhamla_server.Movement.{Movement, available_movements_from, iter_player_movements}
use sternhamla_server.Movement.Available.{Legal, available_movements_from-Legal}

-- A legal move of a piece of the player.
abbrev pub LegalFor : {T : Type 0} → Board T → T → Movement → Type 0
LegalFor b p m = (i : HexIdx) × (cell b i ≡ some (some p)) × Legal b i m

module _ {T : Type 0} ⦃e : Eq T⦄ (b : Board T) (sq : IsSquare b) (p : T) where
  -- On a board of 17 * 17 cells `iter_player_movements` returns, and a movement is in its list
  -- exactly when it is a legal move of a cell with a piece of the player.
  pub iter_player_movements-LegalFor :
      (E : Type 0)
      → Returns
          (λ ms. (m : Movement) → (m ∈ ms) ↔ LegalFor b p m)
          (iter_player_movements {E = E} b p)
  unfolding iter_player_movements
  iter_player_movements-LegalFor E =
      Returns-bind _ _ (iter_player_indices b p) _ (iter_player_indices-cell p E b sq) λ is all.
        Returns-imp (Flattens (available_movements_from b) is) _ _
          (λ ms f m. (
            λ at_m.
                let (i, zs, at_i, found, at_zs) = f.1 m at_m in
                (i, (all i).0 at_i, (listed i zs ((all i).0 at_i) found m).0 at_zs),
            λ (i, c, l).
                let (zs, found, lists) =
                  Returns-elim _ _
                    (available_movements_from-Legal b sq E i (Inside-of_cell b i (some p) sq c)) in
                f.0 i zs m ((all i).1 c) found ((lists m).1 l),
          ))
          (flat_map-Flattens (available_movements_from b) is (λ i at_i.
            Returns-imp _ _ _ (λ _ _. tt)
              (available_movements_from-Legal b sq E i
                (Inside-of_cell b i (some p) sq ((all i).0 at_i)))))
    where
      listed :
          (i : HexIdx) (zs : List Movement)
          → cell b i ≡ some (some p)
          → available_movements_from {E = E} b i ≡ ok zs
          → (m : Movement) → (m ∈ zs) ↔ Legal b i m
      listed i zs c found =
          rw found at (available_movements_from-Legal b sq E i (Inside-of_cell b i (some p) sq c))
