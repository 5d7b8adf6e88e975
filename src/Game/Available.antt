-- ===== src/Game/Available.antt =====
-- src/sternhalma/mod.rs, `Game::iter_available_moves`: the list of a turn.
use sternhamla_server.Prelude.{ℕ, ◌+◌, ◌<◌, ◌≡◌, ◌↔◌, List, ◌∈◌, Exec, Returns, Returns-imp}
use sternhamla_server.Player.{Player, player_eq}
use sternhamla_server.Board.Hex.{HexIdx}
use sternhamla_server.Movement.{Movement, to_indices}
use sternhamla_server.Movement.Player.{LegalFor, iter_player_movements-LegalFor}
use sternhamla_server.Movement.Apply.{Legal-Acceptable}
use sternhamla_server.Movement.Validate.{Acceptable}
use sternhamla_server.Game.{
  Game, GameStatus, playing, Scores, GameError, usize_limit, moves_at, iter_available_moves,
  apply_movement,
}
use sternhamla_server.Game.Invariant.{Inv, Played}
use sternhamla_server.Game.Apply.{apply_movement-Played}

module _ (g : Game) (p : Player) (turns : ℕ) (scores : Scores) (inv : Inv g)
    (e : g.status ≡ playing p turns scores) where
  abbrev pub Lists : List Movement → Type 0
  Lists ms = (m : Movement) → (m ∈ ms) ↔ LegalFor g.board p m

  pub iter_available_moves-LegalFor : (E : Type 0) → Returns Lists (iter_available_moves {E = E} g)
  unfolding iter_available_moves
  iter_available_moves-LegalFor E = at_status g.status e
    where
      at_status :
          (st : GameStatus)
          → st ≡ playing p turns scores
          → Returns Lists (moves_at {E = E} st g.board)
      at_status st e' = rw e' (iter_player_movements-LegalFor g.board inv.star.square p E)

  pub LegalFor-Acceptable : (m : Movement) → LegalFor g.board p m → Acceptable g.board m p
  LegalFor-Acceptable m (i, c, l) = Legal-Acceptable g.board inv.star.square i m p c l

  -- In a game that satisfies the invariant and goes on, with a turn counter that stays below
  -- 2^64, `iter_available_moves` returns, and `apply_movement` succeeds for each movement in the
  -- list: its first cell has a piece of the player to move, which goes to its last cell, and the
  -- invariant holds again.
  pub iter_available_moves-Played :
      (E : Type 0)
      → turns + 1 < usize_limit
      → Returns
          (λ ms.
            (m : Movement)
            → m ∈ ms
            → Returns
                (λ r.
                  (from to : HexIdx) × (to_indices {E = GameError} m ≡ Exec.ok (from, to))
                  × Played g p from to r)
                (apply_movement g m))
          (iter_available_moves {E = E} g)
  iter_available_moves-Played E small =
      Returns-imp Lists _ (iter_available_moves g)
        (λ ms lists m at_m.
          apply_movement-Played g m p turns scores inv e (LegalFor-Acceptable m ((lists m).0 at_m))
            small)
        (iter_available_moves-LegalFor E)
