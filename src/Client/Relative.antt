-- ===== src/Client/Relative.antt =====
-- The view of a player: player 2 sees the board turned by a half turn, and itself as player 1.
use sternhamla_server.Prelude.{
  ◌+◌, ◌-◌, ◌≡◌, ◌↔◌, refl, ◌∙◌, true, contains, every, every_sound, contains-mem, ◌∈◌, List, ok,
  Returns, arith,
}
use sternhamla_server.Player.{Player, player1, player2, opponent}
use sternhamla_server.Board.Hex.{HexIdx, Inside, idx_eq}
use sternhamla_server.Board.{goal_indices}
use sternhamla_server.Board.Lut.{
  valid_positions, player1_starting_positions, player2_starting_positions,
}
use sternhamla_server.Client.{
  relative_player, flip, relative_idx, relative_movement, relative_scores,
}
use sternhamla_server.Movement.{MovementIndices}
use sternhamla_server.Game.{Scores, score_of}

-- The half turn of the square.
abbrev pub turned : Player → HexIdx → HexIdx
turned player1 idx = idx
turned player2 (q, r) = (16 - q, 16 - r)

relative_idx-turned :
    (E : Type 0) (self : Player) (idx : HexIdx)
    → Inside idx
    → relative_idx {E = E} self idx ≡ ok (turned self idx)
unfolding relative_idx flip
relative_idx-turned E player1 idx h = refl
relative_idx-turned E player2 (q, r) h = ground arith

turned-Inside : (self : Player) (idx : HexIdx) → Inside idx → Inside (turned self idx)
turned-Inside player1 idx h = h
turned-Inside player2 (q, r) h = (omega arith, omega arith)

turned-twice : (self : Player) (idx : HexIdx) → Inside idx → turned self (turned self idx) ≡ idx
turned-twice player1 idx h = refl
turned-twice player2 (q, r) h = ground arith

abbrev pub turned_ends : Player → MovementIndices → MovementIndices
turned_ends self ends = (turned self ends.0, turned self ends.1)

pub relative_movement-turned :
    (E : Type 0) (self : Player) (m : MovementIndices)
    → Inside m.0
    → Inside m.1
    → relative_movement {E = E} self m ≡ ok (turned_ends self m)
unfolding relative_movement
relative_movement-turned E self m h0 h1 =
    rw (relative_idx-turned E self m.0 h0, relative_idx-turned E self m.1 h1) refl

-- Every index of the list is turned into the other list.
TurnsInto : Player → List HexIdx → List HexIdx → Type 0
TurnsInto self ks ls = every (λ k. contains ls (turned self k)) ks ≡ true

valid_turns : (self : Player) → TurnsInto self valid_positions valid_positions
unfolding TurnsInto every valid_positions
valid_turns player1 = refl
valid_turns player2 = refl

start_turns : (self : Player) → TurnsInto self (goal_indices self) (goal_indices player1)
unfolding TurnsInto every player1_starting_positions player2_starting_positions
start_turns player1 = refl
start_turns player2 = refl

start_turns_back : (self : Player) → TurnsInto self (goal_indices player1) (goal_indices self)
unfolding TurnsInto every player1_starting_positions player2_starting_positions
start_turns_back player1 = refl
start_turns_back player2 = refl

turned-mem :
    (self : Player) (ks ls : List HexIdx)
    → TurnsInto self ks ls
    → (k : HexIdx) → k ∈ ks
    → turned self k ∈ ls
unfolding TurnsInto
turned-mem self ks ls h k m =
    contains-mem ls (turned self k) (every_sound (λ k. contains ls (turned self k)) ks k h m)

back :
    (self : Player) (ks ls : List HexIdx)
    → TurnsInto self ls ks
    → (k : HexIdx) → Inside k
    → turned self k ∈ ls
    → k ∈ ks
back self ks ls h k inside m =
    rw (turned-twice self k inside) at (turned-mem self ls ks h (turned self k) m)

symmetric :
    (self : Player) (k : HexIdx)
    → Inside k
    → ((k ∈ valid_positions) ↔ (turned self k ∈ valid_positions))
      × ((k ∈ goal_indices self) ↔ (turned self k ∈ goal_indices player1))
symmetric self k inside = (
  (
    turned-mem self valid_positions valid_positions (valid_turns self) k,
    back self valid_positions valid_positions (valid_turns self) k inside,
  ),
  (
    turned-mem self (goal_indices self) (goal_indices player1) (start_turns self) k,
    back self (goal_indices self) (goal_indices player1) (start_turns_back self) k inside,
  ),
)

-- What an index of the game is in the view of a player: the index itself for player 1, and its image
-- by the half turn about the centre (8, 8) for player 2. The star is kept, and the goal of the
-- player becomes the goal of player 1.
pub record Viewed (self : Player) (k k' : HexIdx) : Type 0 where
  pub seen_by_first : self ≡ player1 → k' ≡ k
  pub seen_by_second : self ≡ player2 → (k.0 + k'.0 ≡ 8 + 8) × (k.1 + k'.1 ≡ 8 + 8)
  pub star : (k ∈ valid_positions) ↔ (k' ∈ valid_positions)
  pub goal : (k ∈ goal_indices self) ↔ (k' ∈ goal_indices player1)

half_turn :
    (self : Player) (k : HexIdx)
    → Inside k
    → self ≡ player2
    → (k.0 + (turned self k).0 ≡ 8 + 8) × (k.1 + (turned self k).1 ≡ 8 + 8)
half_turn player1 k inside e = absurd (cc (e))
half_turn player2 (q, r) inside e = (omega (arith, inside), omega (arith, inside))

same : (self : Player) (k : HexIdx) → self ≡ player1 → turned self k ≡ k
same player1 k e = refl
same player2 k e = absurd (cc (e))

turned-Viewed : (self : Player) (k : HexIdx) → Inside k → Viewed self k (turned self k)
turned-Viewed self k inside = record {
  seen_by_first = same self k;
  seen_by_second = half_turn self k inside;
  star = (symmetric self k inside).0;
  goal = (symmetric self k inside).1;
}

-- For a movement whose ends lie on the 17 * 17 square `relative_movement` returns. For player 1
-- the ends stay; for player 2 each end becomes its image by the half turn about the centre (8,
-- 8). An end is on the star exactly when its image is, and a goal position of the player exactly
-- when its image is a goal position of player 1. Done twice it gives the movement back.
pub relative_movement-Viewed :
    (E : Type 0) (self : Player) (m : MovementIndices)
    → Inside m.0
    → Inside m.1
    → Returns
        (λ m'.
          Viewed self m.0 m'.0 × Viewed self m.1 m'.1 × (relative_movement {E = E} self m' ≡ ok m))
        (relative_movement {E = E} self m)
relative_movement-Viewed E self m h0 h1 = rw (relative_movement-turned E self m h0 h1) (
  turned-Viewed self m.0 h0,
  turned-Viewed self m.1 h1,
  relative_movement-turned E self (turned_ends self m) (turned-Inside self m.0 h0)
        (turned-Inside self m.1 h1)
      ∙ (λ i. ok (turned-twice self m.0 h0 i, turned-twice self m.1 h1 i)),
)

-- A player is player 1 in its own view; the view of a player, taken twice, gives the player back;
-- and the score of each player in the view is its score in the game.
pub relative_view :
    (self p : Player) (scores : Scores)
    → (relative_player self self ≡ player1)
      × (relative_player self (relative_player self p) ≡ p)
      × (score_of (relative_scores self scores) (relative_player self p) ≡ score_of scores p)
unfolding relative_player relative_scores opponent
relative_view player1 p scores = (refl, refl, refl)
relative_view player2 player1 scores = (refl, refl, refl)
relative_view player2 player2 scores = (refl, refl, refl)
