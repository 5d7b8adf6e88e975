-- ===== src/Rules/Star.antt =====
-- src/sternhalma/board/lut.rs: the tables against the geometry of the star.
use sternhamla_server.Prelude.{
  ℕ, zero, suc, ◌<◌, ◌≡◌, refl, Bool, true, false, ◌&&◌, List, contains, every, every_sound,
  contains-mem, if◌then◌else◌, Bool-cases, inl, inr, ltb, arith,
}
use sternhamla_server.Player.{player1, player2}
use sternhamla_server.Board.Hex.{HexIdx, Inside, idx_eq}
use sternhamla_server.Board.Lut.{
  valid_positions, player1_starting_positions, player2_starting_positions,
}
use sternhamla_server.Rules.{on_star, home}

same : Bool → Bool → Bool
same true b = b
same false b = if b then false else true

same_sound : (a b : Bool) → same a b ≡ true → a ≡ b
unfolding same
same_sound true b h = ground arith
same_sound false b h = ground arith

-- Every number below a bound.
every_below : ℕ → (ℕ → Bool) → Bool
every_below zero f = true
every_below (suc n) f = f n && every_below n f

every_below_sound : (n : ℕ) (f : ℕ → Bool) (i : ℕ) → every_below n f ≡ true → i < n → f i ≡ true
unfolding every_below
every_below_sound zero f i h lt = absurd (omega arith)
every_below_sound (suc n) f i h lt = ground (arith, every_below_sound n f i)

-- A table that agrees with a test on the square, and has nothing off the square.
agree : List HexIdx → (HexIdx → Bool) → Bool
agree ks f =
    every_below 17 (λ q. every_below 17 (λ r. same (contains ks (q, r)) (f (q, r))))
    && every (λ k. ltb k.0 17 && ltb k.1 17) ks

agree_sound :
    (ks : List HexIdx) (f : HexIdx → Bool)
    → agree ks f ≡ true
    → ((k : HexIdx) → f k ≡ true → Inside k)
    → (k : HexIdx) → contains ks k ≡ f k
unfolding agree
agree_sound ks f h inside (q, r) = elim (Bool-cases (ltb q 17 && ltb r 17)) [
  | inl within ↦ same_sound (contains ks (q, r)) (f (q, r)) (
      every_below_sound 17 (λ r'. same (contains ks (q, r')) (f (q, r'))) r
        (every_below_sound 17
          (λ q'. every_below 17 (λ r'. same (contains ks (q', r')) (f (q', r')))) q
          (ground (arith, h)) (ground (arith, within)))
        (ground (arith, within)))
  | inr outside ↦ ground (
    arith,
    outside,
    inside (q, r),
    every_sound (λ (k : HexIdx). ltb k.0 17 && ltb k.1 17) ks (q, r),
    contains-mem ks (q, r),
    h,
  )
]

valid_agrees : agree valid_positions on_star ≡ true
unfolding agree every_below every same valid_positions
valid_agrees = refl

home_agrees :
    (agree player1_starting_positions (home player1) ≡ true)
    × (agree player2_starting_positions (home player2) ≡ true)
unfolding agree every_below every same player1_starting_positions player2_starting_positions
home_agrees = (refl, refl)

pub contains-on_star : (k : HexIdx) → contains valid_positions k ≡ on_star k
contains-on_star k = agree_sound valid_positions on_star valid_agrees (λ j h. ground (arith, h)) k

pub contains-home :
    (k : HexIdx)
    → (contains player1_starting_positions k ≡ home player1 k)
      × (contains player2_starting_positions k ≡ home player2 k)
contains-home k = (
  agree_sound player1_starting_positions (home player1) home_agrees.0 (λ j h. ground (arith, h)) k,
  agree_sound player2_starting_positions (home player2) home_agrees.1 (λ j h. ground (arith, h)) k,
)

-- An index is in the table of valid positions exactly when it lies on the star of two large
-- triangles, and in the table of a player's starting positions exactly when it lies in the point
-- of the star where that player begins.
pub lut_geometry :
    (k : HexIdx)
    → (contains valid_positions k ≡ on_star k)
      × (contains player1_starting_positions k ≡ home player1 k)
      × (contains player2_starting_positions k ≡ home player2 k)
lut_geometry k = (contains-on_star k, (contains-home k).0, (contains-home k).1)
