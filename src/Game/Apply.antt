-- ===== src/Game/Apply.antt =====
-- src/sternhalma/mod.rs, `Game::apply_movement`: each of its results, and the games that it reaches.
use sternhamla_server.Prelude.{
  ℕ, ◌+◌, ◌<◌, ◌≡◌, refl, sym, ◌∙◌, ◌≢◌, ◌⊎◌, inl, inr, ok, err, Returns, Returns-imp, >>=-eq-ok,
  map_err, map_err-eq-ok, Bool-cases, ◌==◌, arith,
}
use sternhamla_server.Player.{Player, player_eq, player_beq_iff}
use sternhamla_server.Board.Hex.{HexIdx}
use sternhamla_server.Movement.{Movement, to_indices, validate_movement}
use sternhamla_server.Movement.Validate.{Acceptable, validate_movement-same, validate_movement_iff}
use sternhamla_server.Movement.Apply.{Acceptable-indices}
use sternhamla_server.Game.{
  Game, GameStatus, playing, finished, Scores, GameError, movement_error, out_of_turn,
  game_finished, usize_limit, apply_movement, apply_at, apply_movement_unchecked,
}
use sternhamla_server.Game.Invariant.{Inv, Played, apply_movement_unchecked-Played}

Status-cases :
    (st : GameStatus)
    → ((p : Player) × (turns : ℕ) × (scores : Scores) × (st ≡ playing p turns scores))
      ⊎ ((p : Player) × (turns : ℕ) × (scores : Scores) × (st ≡ finished p turns scores))
Status-cases (playing p turns scores) = inl (p, turns, scores, refl)
Status-cases (finished p turns scores) = inr (p, turns, scores, refl)

module _ (g : Game) (m : Movement) where
  -- A finished game refuses every movement.
  apply_movement_finished :
      (p : Player) (turns : ℕ) (scores : Scores)
      → g.status ≡ finished p turns scores
      → apply_movement g m ≡ err game_finished
  unfolding apply_movement
  apply_movement_finished p turns scores e = rw e

  module _ (p : Player) (turns : ℕ) (scores : Scores) (inv : Inv g)
      (e : g.status ≡ playing p turns scores) where
    -- In a game that satisfies the invariant and goes on, a movement of a piece that is not of
    -- the player to move, whose other cells are empty, is refused with `out_of_turn`.
    apply_movement_out_of_turn :
        (q : Player) → Acceptable g.board m q → q ≢ p → apply_movement g m ≡ err out_of_turn
    unfolding apply_movement
    apply_movement_out_of_turn q h other =
        rw (e, (validate_movement_iff g.board m q inv.star.square).1 h)
          (ground (arith, player_beq_iff q p))

    -- An accepted movement of the player to move is handed on by its two ends.
    apply_at-indices :
        (st : GameStatus) (from to : HexIdx)
        → st ≡ playing p turns scores
        → Acceptable g.board m p
        → to_indices {E = GameError} m ≡ ok (from, to)
        → apply_at st g m ≡ apply_movement_unchecked g (from, to)
    apply_at-indices st from to e' h ends =
        rw
          (
            e',
            (validate_movement_iff g.board m p inv.star.square).1 h,
            (player_beq_iff p p).1 refl,
            ends,
          )
          refl

    -- In a game that satisfies the invariant and goes on, with a turn counter that stays below
    -- 2^64, `apply_movement` succeeds for every movement that starts on a piece of the player to
    -- move and names only empty cells otherwise. The piece goes from the first cell that it names
    -- to the last, no other cell changes, the history and the turns have one more, and the
    -- invariant holds again.
    pub apply_movement-Played :
        Acceptable g.board m p
        → turns + 1 < usize_limit
        → Returns
            (λ r.
              (from to : HexIdx) × (to_indices {E = GameError} m ≡ ok (from, to))
              × Played g p from to r)
            (apply_movement g m)
    unfolding apply_movement
    apply_movement-Played h small =
        let (from, to, ends, c, free) = Acceptable-indices GameError g.board m p h in
        let made = apply_at-indices g.status from to e h ends in
        let result =
          apply_movement_unchecked-Played GameError g from to p turns scores inv e c free small in
        rw (made) (
          Returns-imp (Played g p from to) _ (apply_movement_unchecked g (from, to))
            (λ r pl. (from, to, ends, pl)) result)

  -- If `apply_movement` succeeds in a game that satisfies the invariant, then the game was going
  -- on, the movement starts on a piece of the player to move, and every other cell that it names
  -- is an empty cell of the star.
  pub apply_movement-Accepted :
      (r : Game × GameStatus)
      → Inv g
      → apply_movement g m ≡ ok r
      → (p : Player) × (turns : ℕ) × (scores : Scores) × (g.status ≡ playing p turns scores)
        × Acceptable g.board m p
  unfolding apply_movement
  apply_movement-Accepted r inv made = elim (Status-cases g.status) [
    | inr (p, turns, scores, e) ↦ absurd (cc (sym made ∙ apply_movement_finished p turns scores e))
    | inl (p, turns, scores, e) ↦ (p, turns, scores, e, accepted p turns scores e (cc))
  ]
    where
      accepted :
          (p : Player) (turns : ℕ) (scores : Scores)
          → g.status ≡ playing p turns scores
          → apply_at (playing p turns scores) g m ≡ ok r
          → Acceptable g.board m p
      accepted p turns scores e h =
          let ((m', q), checked, h1) =
            >>=-eq-ok (map_err movement_error (validate_movement g.board m)) _ _ h in
          let valid = map_err-eq-ok movement_error (validate_movement g.board m) (m', q) checked in
          let same = validate_movement-same g.board m m' q valid in
          let accepted_for : Acceptable g.board m q =
            (validate_movement_iff g.board m q inv.star.square).0 (rw same at valid) in
          elim (Bool-cases (q == p)) [
            | inl mine ↦ rw ((player_beq_iff q p).0 mine) at accepted_for
            | inr other ↦ absurd (cc (rw other at h1))
          ]
