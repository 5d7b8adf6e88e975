-- ===== src/Game/Count.antt =====
-- What a move does to the number of pieces on a set of cells, and so to the scores.
use sternhamla_server.Prelude.{
  ℕ, ◌+◌, ◌≤◌, ◌<◌, ◌≡◌, refl, ◌≢◌, ◌⊎◌, inl, inr, Bool, true, false, none, some, List, [], ◌∷◌,
  length, contains, contains_of_not-mem, Distinct, ok, ◌>>=◌, ◌==◌, if◌then◌else◌, arith,
}
use sternhamla_server.Player.{Player, player1, player2, player_eq, player_beq_iff}
use sternhamla_server.Board.{Board, goal_indices}
use sternhamla_server.Board.Hex.{HexIdx, idx_eq, idx_beq_iff}
use sternhamla_server.Board.Lut.{player1_starting_positions, player2_starting_positions}
use sternhamla_server.Board.Cells.{cell}
use sternhamla_server.Board.Setup.{starts-Distinct}
use sternhamla_server.Board.Score.{IsStar, holds, pieces, pieces-every}
use sternhamla_server.Movement.Apply.{Moved}
use sternhamla_server.Game.{Scores, leave_goal, enter_goal}

-- A move by `p` that the rules or the validation let through.
pub record Plays (b : Board Player) (from to : HexIdx) (p : Player) (b' : Board Player)
    : Type 0 where
  pub moved : Moved b from to p b'
  pub start : cell b from ≡ some (some p)
  pub free : (cell b to ≡ some none) ⊎ (to ≡ from)

abbrev pub one_if : Bool → ℕ
one_if t = if t then 1 else 0

module _ (b : Board Player) (from to : HexIdx) (p : Player) (b' : Board Player)
    (m : Plays b from to p b') where
  holds-Plays :
      (k : HexIdx)
      → holds b' p k ≡ (if to == k then true else if from == k then false else holds b p k)
  unfolding holds
  holds-Plays k = ground (arith, m.moved.cells k, player_beq_iff p p)

  holds-start : holds b p from ≡ true
  unfolding holds
  holds-start = ground (arith, m.start, player_beq_iff p p)

  holds-free : (holds b p to ≡ false) ⊎ (to ≡ from)
  unfolding holds
  holds-free = elim m.free [ inl empty ↦ inl (rw empty) | inr same ↦ inr same ]

  pub holds_other : (q : Player) (k : HexIdx) → q ≢ p → holds b' q k ≡ holds b q k
  unfolding holds
  holds_other q k other = ground (
    arith,
    m.moved.cells k,
    m.start,
    m.free,
    player_beq_iff p q,
    idx_beq_iff from k,
    idx_beq_iff to k,
  )

  pub pieces-Plays :
      (ks : List HexIdx)
      → Distinct ks
      → pieces b' p ks + one_if (contains ks from) ≡ pieces b p ks + one_if (contains ks to)
  unfolding pieces
  pieces-Plays [] d = refl
  pieces-Plays (k ∷ ks) d = ground (
    arith,
    pieces-Plays ks d.1,
    holds-Plays k,
    holds-start,
    holds-free,
    contains_of_not-mem ks k d.0,
    idx_beq_iff from k,
    idx_beq_iff k from,
    idx_beq_iff to k,
    idx_beq_iff k to,
  )

  pub pieces_other : (q : Player) (ks : List HexIdx) → q ≢ p → pieces b' q ks ≡ pieces b q ks
  unfolding pieces
  pieces_other q [] other = refl
  pieces_other q (k ∷ ks) other = rw (holds_other q k other, pieces_other q ks other)

abbrev pub goal_pieces : Board Player → Player → ℕ
goal_pieces b p = pieces b p (goal_indices p)

-- The scores that a recount of the board gives.
abbrev pub counted : Board Player → Scores
counted b = (goal_pieces b player1, goal_pieces b player2)

pub starts_length :
    (length player1_starting_positions ≡ 15) × (length player2_starting_positions ≡ 15)
unfolding player1_starting_positions player2_starting_positions
starts_length = (refl, refl)

goal_pieces-le : (b : Board Player) (p : Player) → goal_pieces b p ≤ 15
goal_pieces-le b player1 =
    omega (arith, starts_length, (pieces-every b player1 player2_starting_positions).0)
goal_pieces-le b player2 =
    omega (arith, starts_length, (pieces-every b player2 player1_starting_positions).0)

-- A piece on one of the cells is counted.
pieces-pos :
    (b : Board Player) (p : Player) (ks : List HexIdx) (k : HexIdx)
    → contains ks k ≡ true
    → holds b p k ≡ true
    → 0 < pieces b p ks
unfolding pieces
pieces-pos b p [] k c h = absurd (cc)
pieces-pos b p (j ∷ ks) k c h = ground (arith, pieces-pos b p ks k, idx_beq_iff j k)

-- Start from the scores that a recount of the board gives, and let a piece of p move to an empty
-- cell or back to its start. Then the two updates of the score, for leaving a goal position and
-- for entering one, neither go below 0 nor overflow, and give the scores that a recount of the
-- new board gives.
pub scores-Plays :
    (E : Type 0) (b : Board Player) (from to : HexIdx) (p : Player) (b' : Board Player)
    → Plays b from to p b'
    → (leave_goal {E = E} p from (counted b) >>= λ left. enter_goal p to left) ≡ ok (counted b')
unfolding leave_goal enter_goal
scores-Plays E b from to player1 b' m = ground (
  arith,
  pieces-Plays b from to player1 b' m player2_starting_positions starts-Distinct.1,
  pieces_other b from to player1 b' m player2 player1_starting_positions (λ e. cc),
  pieces-pos b player1 player2_starting_positions from,
  holds-start b from to player1 b' m,
  goal_pieces-le b player1,
  goal_pieces-le b' player1,
)
scores-Plays E b from to player2 b' m = ground (
  arith,
  pieces-Plays b from to player2 b' m player1_starting_positions starts-Distinct.0,
  pieces_other b from to player2 b' m player1 player2_starting_positions (λ e. cc),
  pieces-pos b player2 player1_starting_positions from,
  holds-start b from to player2 b' m,
  goal_pieces-le b player2,
  goal_pieces-le b' player2,
)

-- The board keeps the shape of the star.
pub IsStar-Plays :
    (b : Board Player) (from to : HexIdx) (p : Player) (b' : Board Player)
    → IsStar b
    → Plays b from to p b'
    → IsStar b'
IsStar-Plays b from to p b' v m = record {
  square = m.moved.square;
  shape = λ k.
      ground
        (arith, v.shape k, m.moved.cells k, m.start, m.free, idx_beq_iff from k, idx_beq_iff to k);
}
