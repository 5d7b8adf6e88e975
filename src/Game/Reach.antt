-- ===== src/Game/Reach.antt =====
-- src/sternhalma/mod.rs: the games that `Game::new` and successful calls of `apply_movement` reach.
use sternhamla_server.Prelude.{ℕ, ◌+◌, ◌<◌, ◌≡◌, ◌∙◌, ap, Exec, ok, Returns, arith}
use sternhamla_server.Movement.{Movement}
use sternhamla_server.Game.{
  Game, GameStatus, status_turns, GameError, usize_limit, new_game, apply_movement,
}
use sternhamla_server.Game.Invariant.{Inv}
use sternhamla_server.Game.Start.{new_game-Inv}
use sternhamla_server.Game.Apply.{apply_movement-Accepted, apply_movement-Played}

-- `n` movements have been applied.
pub data Reached : ℕ → Game → Type 0 where
  start : (g : Game) → new_game {E = GameError} ≡ ok g → Reached 0 g
  step :
      (n : ℕ) (g g' : Game) (m : Movement) (status : GameStatus)
      → Reached n g
      → apply_movement g m ≡ ok (g', status)
      → Reached (n + 1) g'

of_Returns : {E A : Type 0} (P : A → Type 0) (r : Exec E A) (a : A) → r ≡ ok a → Returns P r → P a
of_Returns P r a e h = rw e at h

-- Every game that `new_game` and a number n < 2^64 of successful calls of `apply_movement` reach
-- satisfies the invariant, and its status counts n turns.
pub Reached-Inv :
    (n : ℕ) (g : Game) → Reached n g → n < usize_limit → Inv g × (status_turns g.status ≡ n)
unfolding status_turns
Reached-Inv n g (start h made) small =
    let (inv, opening, empty, cells) = of_Returns _ _ g made (new_game-Inv GameError) in
    (inv, ap status_turns opening)
Reached-Inv n g (step n' g0 g' m status r made) small =
    let (inv, counted) = Reached-Inv n' g0 r (omega arith) in
    let (p, turns, scores, e, accepted) = apply_movement-Accepted g0 m (g', status) inv made in
    let (from, to, ends, played) =
      of_Returns _ _ (g', status) made
        (apply_movement-Played g0 m p turns scores inv e accepted
          (omega (arith, counted, ap status_turns e))) in
    (played.inv, played.turns ∙ ap (λ k. k + 1) counted)
