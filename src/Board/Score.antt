-- ===== src/Board/Score.antt =====
-- src/sternhalma/board/mod.rs, `check_winner` and `score`, on a board in the shape of the star.
use sternhamla_server.Prelude.{
  ℕ, ◌+◌, ◌≡◌, refl, inl, inr, Bool, true, false, Option, none, some, List, [], ◌∷◌, contains, ◌∈◌,
  contains-mem, Bool-cases, length, ◌≤◌, ◌↔◌, every, every_sound, ok, Returns, ◌==◌, Option-cases,
  if◌then◌else◌, arith,
}
use sternhamla_server.Player.{Player, player1, player2, player_eq, player_beq_iff}
use sternhamla_server.Board.{
  Board, Position, goal_indices, is_at, all_at, find_winner, check_winner, count_at, score,
}
use sternhamla_server.Board.Hex.{HexIdx, idx_eq}
use sternhamla_server.Board.Lut.{
  valid_positions, player1_starting_positions, player2_starting_positions,
}
use sternhamla_server.Board.Cells.{IsSquare, cell, get-cell, Inside-of_cell}
use sternhamla_server.Board.Setup.{starts_valid, start_cell}

abbrev pub on_board : {T : Type 0} → Position T → Bool
on_board none = false
on_board (some _) = true

-- The cells of the board are those of the star.
pub record IsStar {T : Type 0} (b : Board T) : Type 0 where
  pub square : IsSquare b
  pub shape : (k : HexIdx) → on_board (cell b k) ≡ contains valid_positions k

cell_valid :
    {T : Type 0} (b : Board T) (k : HexIdx)
    → IsStar b
    → contains valid_positions k ≡ true
    → (o : Option T) × (cell b k ≡ some o)
cell_valid b k v h = elim (Option-cases (cell b k)) [
  | inl off ↦ absurd (ground (arith, v.shape k))
  | inr (o, e) ↦ (o, e)
]

goal_valid : (p : Player) (k : HexIdx) → k ∈ goal_indices p → contains valid_positions k ≡ true
goal_valid player1 k m = every_sound (contains valid_positions) _ k starts_valid.1 m
goal_valid player2 k m = every_sound (contains valid_positions) _ k starts_valid.0 m

-- The start is a star.
pub start-IsStar :
    (b : Board Player) → IsSquare b → ((k : HexIdx) → cell b k ≡ start_cell k) → IsStar b
start-IsStar b sq h = record {
  square = sq;
  shape = λ k. ground (
    arith,
    h k,
    contains-mem player1_starting_positions k,
    contains-mem player2_starting_positions k,
    every_sound (contains valid_positions) player1_starting_positions k starts_valid.0,
    every_sound (contains valid_positions) player2_starting_positions k starts_valid.1,
  );
}

-- The piece of `p` is on the cell.
abbrev pub held : Player → Position Player → Bool
held p none = false
held p (some none) = false
held p (some (some q)) = q == p

unfoldable pub holds : Board Player → Player → HexIdx → Bool
holds b p k = held p (cell b k)

-- How many of the cells have a piece of `p`.
unfoldable pub pieces : Board Player → Player → List HexIdx → ℕ
pieces b p [] = 0
pieces b p (k ∷ ks) = (if holds b p k then 1 else 0) + pieces b p ks

module _ (E : Type 0) (b : Board Player) (v : IsStar b) where
  is_at-holds :
      (p : Player) (k : HexIdx)
      → contains valid_positions k ≡ true
      → is_at {E = E} b p k ≡ ok (holds b p k)
  unfolding is_at holds
  is_at-holds p k h =
      let (o, e) = cell_valid b k v h in
      let inside = Inside-of_cell b k o v.square e in
      rw (get-cell b k v.square inside, e) (ground arith)

  all_at-every :
      (p : Player) (ks : List HexIdx)
      → ((k : HexIdx) → k ∈ ks → contains valid_positions k ≡ true)
      → all_at {E = E} b p ks ≡ ok (every (holds b p) ks)
  unfolding all_at every
  all_at-every p [] h = refl
  all_at-every p (k ∷ ks) h =
      rw (is_at-holds p k (h k (inl refl))) (ground (arith, all_at-every p ks (λ j m. h j (inr m))))

  count_at-pieces :
      (p : Player) (ks : List HexIdx)
      → ((k : HexIdx) → k ∈ ks → contains valid_positions k ≡ true)
      → count_at {E = E} b p ks ≡ ok (pieces b p ks)
  unfolding count_at pieces
  count_at-pieces p [] h = refl
  count_at-pieces p (k ∷ ks) h =
      rw (is_at-holds p k (h k (inl refl)), count_at-pieces p ks (λ j m. h j (inr m)))

-- Every goal position of `p` has a piece of `p`.
abbrev pub Wins : Board Player → Player → Type 0
Wins b p = (k : HexIdx) → k ∈ goal_indices p → cell b k ≡ some (some p)

-- What an answer of `check_winner` says. Player 1 is looked at first.
abbrev pub Verdict : Board Player → Option Player → Type 0
Verdict b none = ¬ Wins b player1 × ¬ Wins b player2
Verdict b (some player1) = Wins b player1
Verdict b (some player2) = ¬ Wins b player1 × Wins b player2

held_iff : (p : Player) (c : Position Player) → (held p c ≡ true) ↔ (c ≡ some (some p))
held_iff p none = ground arith
held_iff p (some none) = ground arith
held_iff p (some (some q)) = ground (arith, player_beq_iff q p)

pub holds_iff :
    (b : Board Player) (p : Player) (k : HexIdx) → (holds b p k ≡ true) ↔ (cell b k ≡ some (some p))
unfolding holds
holds_iff b p k = held_iff p (cell b k)

every_of_forall :
    (f : HexIdx → Bool) (ks : List HexIdx)
    → ((k : HexIdx) → k ∈ ks → f k ≡ true)
    → every f ks ≡ true
unfolding every
every_of_forall f [] h = refl
every_of_forall f (k ∷ ks) h = rw (h k (inl refl)) (every_of_forall f ks (λ j m. h j (inr m)))

pub every-Wins :
    (b : Board Player) (p : Player) → (every (holds b p) (goal_indices p) ≡ true) ↔ Wins b p
every-Wins b p = (
  λ h k m. (holds_iff b p k).0 (every_sound (holds b p) _ k h m),
  λ w. every_of_forall (holds b p) _ (λ k m. (holds_iff b p k).1 (w k m)),
)

check_winner-every :
    (E : Type 0) (b : Board Player)
    → IsStar b
    → check_winner {E = E} b
      ≡ ok (
          if every (holds b player1) (goal_indices player1)
          then some player1
          else if every (holds b player2) (goal_indices player2)
          then some player2
          else none)
unfolding check_winner find_winner
check_winner-every E b v = ground (
  arith,
  all_at-every E b v player1 (goal_indices player1) (goal_valid player1),
  all_at-every E b v player2 (goal_indices player2) (goal_valid player2),
)

-- On a board of the shape of the star `check_winner` returns. It names player 1 only if player 1
-- has all its goal positions, player 2 only if player 2 has all its goal positions and player 1
-- has not, and nobody only if neither player has.
pub check_winner-Verdict :
    (E : Type 0) (b : Board Player) → IsStar b → Returns (Verdict b) (check_winner {E = E} b)
check_winner-Verdict E b v =
    rw (check_winner-every E b v)
      (elim (Bool-cases (every (holds b player1) (goal_indices player1))) [
        | inl one ↦ rw one ((every-Wins b player1).0 one)
        | inr other ↦
            let lost : ¬ Wins b player1 = λ w. cc ((every-Wins b player1).1 w) in
            rw other (elim (Bool-cases (every (holds b player2) (goal_indices player2))) [
              | inl two ↦ rw two (lost, (every-Wins b player2).0 two)
              | inr neither ↦ rw neither (lost, λ w. cc ((every-Wins b player2).1 w))
            ])
      ])

-- On a board of the shape of the star `score` returns the number of goal positions of the player
-- that have a piece of the player.
pub score-pieces :
    (E : Type 0) (b : Board Player) (p : Player)
    → IsStar b
    → score {E = E} b p ≡ ok (pieces b p (goal_indices p))
unfolding score
score-pieces E b p v = count_at-pieces E b v p (goal_indices p) (goal_valid p)

pub pieces-every :
    (b : Board Player) (p : Player) (ks : List HexIdx)
    → (pieces b p ks ≤ length ks) × ((pieces b p ks ≡ length ks) ↔ (every (holds b p) ks ≡ true))
unfolding pieces every
pieces-every b p [] = (omega arith, (λ _. refl, λ _. refl))
pieces-every b p (k ∷ ks) = ground (arith, pieces-every b p ks)
