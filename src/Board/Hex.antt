-- ===== src/Board/Hex.antt =====
-- src/sternhalma/board/mod.rs: hexagonal indices and the distance between two cells.
use sternhamla_server.Prelude.{
  ℕ, ◌+◌, ◌-◌, ◌*◌, ◌<◌, ◌≡◌, ◌↔◌, Bool, true, ◌&&◌, List, [], ◌∷◌, Eq, nat_beq, leb, if◌then◌else◌,
  arith,
}

abbrev pub board_length : ℕ
board_length = 17

-- `[q, r]`.
abbrev pub HexIdx : Type 0
HexIdx = ℕ × ℕ

abbrev pub idx_beq : HexIdx → HexIdx → Bool
idx_beq (i, j) (k, l) = nat_beq i k && nat_beq j l

pub idx_beq_iff : (a b : HexIdx) → (idx_beq a b ≡ true) ↔ (a ≡ b)
idx_beq_iff (i, j) (k, l) = ground arith

instance abbrev pub idx_eq : Eq HexIdx
idx_eq = record { eqb = idx_beq; eqb_iff = idx_beq_iff }

-- The index lies on the square that holds the board.
abbrev pub Inside : HexIdx → Type 0
Inside (i, j) = (i < board_length) × (j < board_length)

unfoldable pub abs_diff : ℕ → ℕ → ℕ
abs_diff a b = if leb a b then b - a else a - b

-- `iter().max()` of the three differences; of equal ones it takes the last, the same number.
unfoldable pub max_of : ℕ → List ℕ → ℕ
max_of m [] = m
max_of m (x ∷ xs) = max_of (if leb m x then x else m) xs

unfoldable pub hex_distance : HexIdx → HexIdx → ℕ
unfolding abs_diff max_of
hex_distance (q1, r1) (q2, r2) =
    max_of (abs_diff q1 q2) (abs_diff r1 r2 ∷ abs_diff (q1 + r1) (q2 + r2) ∷ [])

-- What `dist_euclidean` takes the square root of.
unfoldable pub radicand : HexIdx → HexIdx → ℕ
unfolding abs_diff
radicand (q1, r1) (q2, r2) =
    let dq = abs_diff q1 q2 in let dr = abs_diff r1 r2 in (dq + dr) * (dq + dr) - dq * dr
