-- ===== src/Board/Distance.antt =====
-- src/sternhalma/board/mod.rs, `hex_distance` and `dist_euclidean`: distance and the six steps.
use sternhamla_server.Prelude.{ℕ, ◌+◌, ◌≤◌, ◌≡◌, ◌↔◌, ◌⊎◌, [], ◌∷◌, arith}
use sternhamla_server.Board.Hex.{HexIdx, hex_distance, radicand, abs_diff, max_of}
use sternhamla_server.Board.Direction.{HexDirection, nw, ne, sw}
use sternhamla_server.Board.Neighbours.{Toward}

-- The three differences, the distance, and which of them it is.
abbrev IsMax : ℕ → ℕ → ℕ → ℕ → Type 0
IsMax x y z m = (x ≤ m) × (y ≤ m) × (z ≤ m) × ((m ≡ x) ⊎ (m ≡ y) ⊎ (m ≡ z))

max_of-IsMax : (x y z : ℕ) → IsMax x y z (max_of x (y ∷ z ∷ []))
unfolding max_of
max_of-IsMax x y z = ground arith

hex_distance-IsMax :
    (i j k l : ℕ)
    → IsMax (abs_diff i k) (abs_diff j l) (abs_diff (i + j) (k + l)) (hex_distance (i, j) (k, l))
unfolding hex_distance
hex_distance-IsMax i j k l = max_of-IsMax (abs_diff i k) (abs_diff j l) (abs_diff (i + j) (k + l))

abs_diff_comm : (a b : ℕ) → abs_diff a b ≡ abs_diff b a
unfolding abs_diff
abs_diff_comm a b = ground arith

abs_diff_triangle : (a b c : ℕ) → abs_diff a c ≤ abs_diff a b + abs_diff b c
unfolding abs_diff
abs_diff_triangle a b c = ground arith

-- The distance is the same both ways.
hex_distance_comm : (a b : HexIdx) → hex_distance a b ≡ hex_distance b a
hex_distance_comm (i, j) (k, l) = omega (
  arith,
  hex_distance-IsMax i j k l,
  hex_distance-IsMax k l i j,
  abs_diff_comm i k,
  abs_diff_comm j l,
  abs_diff_comm (i + j) (k + l),
)

hex_distance-eq-zero : (a b : HexIdx) → (hex_distance a b ≡ 0) ↔ (a ≡ b)
unfolding hex_distance
hex_distance-eq-zero (i, j) (k, l) = ground arith

hex_distance_triangle : (a b c : HexIdx) → hex_distance a c ≤ hex_distance a b + hex_distance b c
hex_distance_triangle (i, j) (k, l) (m, n) = omega (
  arith,
  hex_distance-IsMax i j k l,
  hex_distance-IsMax k l m n,
  hex_distance-IsMax i j m n,
  abs_diff_triangle i k m,
  abs_diff_triangle j l n,
  abs_diff_triangle (i + j) (k + l) (m + n),
)

-- For two indices one step apart, the number whose square root `dist_euclidean` takes is 3 when
-- the step is to the north-east or the south-west, and 1 in the other four directions.
pub radicand-Toward :
    (d : HexDirection) (a b : HexIdx)
    → Toward d a b
    → radicand a b ≡ (elim d [ ne ↦ 3 | sw ↦ 3 | _ ↦ 1 ])
unfolding radicand
radicand-Toward nw (i, j) (k, l) h = ground arith
radicand-Toward _ (i, j) (k, l) h = ground arith

-- `hex_distance` is 0 exactly between equal indices, is symmetric, and satisfies the triangle
-- inequality.
pub hex_distance_metric :
    (a b c : HexIdx)
    → ((hex_distance a b ≡ 0) ↔ (a ≡ b))
      × (hex_distance a b ≡ hex_distance b a)
      × (hex_distance a c ≤ hex_distance a b + hex_distance b c)
hex_distance_metric a b c =
    (hex_distance-eq-zero a b, hex_distance_comm a b, hex_distance_triangle a b c)
