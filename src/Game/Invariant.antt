-- ===== src/Game/Invariant.antt =====
-- src/sternhalma/mod.rs: the invariant of a game, and `Game::apply_movement_unchecked`.
use sternhamla_server.Prelude.{
  ℕ, ◌+◌, ◌-◌, ◌%◌, ◌<◌, ◌≡◌, refl, sym, ◌∙◌, ap, ◌≢◌, ◌⊎◌, inl, inr, Option, none, some, [], ◌∷◌,
  ◌++◌, length, length-append, ok, Returns, Returns-bind, >>=-eq-ok, nat_beq, if◌then◌else◌, arith,
}
use sternhamla_server.Player.{Player, player1, player2, player_eq, opponent}
use sternhamla_server.Board.{Board, check_winner}
use sternhamla_server.Board.Hex.{HexIdx}
use sternhamla_server.Board.Lut.{valid_positions}
use sternhamla_server.Board.Cells.{cell}
use sternhamla_server.Board.Setup.{valid-Distinct}
use sternhamla_server.Board.Score.{IsStar, holds_iff, pieces, Wins, Verdict, check_winner-Verdict}
use sternhamla_server.Movement.{apply_movement_unchecked as move_piece}
use sternhamla_server.Movement.Apply.{Moved, apply_movement_unchecked-Moved}
use sternhamla_server.Game.{
  Game, GameStatus, playing, finished, Scores, status_turns, status_after, leave_goal, usize_add,
  usize_limit, next_status, apply_movement_unchecked,
}
use sternhamla_server.Game.Count.{
  Plays, counted, scores-Plays, IsStar-Plays, pieces-Plays, pieces_other, holds_other,
}

-- Whose turn it is after some turns: player 1 begins, and the players take turns.
abbrev pub mover : ℕ → Player
mover turns = if nat_beq (turns % 2) 0 then player1 else player2

-- What the status says of the board.
abbrev pub StatusHolds : GameStatus → Board Player → Type 0
StatusHolds (playing p turns scores) b =
    (p ≡ mover turns) × (scores ≡ counted b) × ¬ Wins b player1 × ¬ Wins b player2
StatusHolds (finished p turns scores) b =
    (turns ≢ 0) × (p ≡ mover (turns - 1)) × (scores ≡ counted b) × Wins b p × ¬ Wins b (opponent p)

pub record Inv (g : Game) : Type 0 where
  pub star : IsStar g.board
  pub material : (p : Player) → pieces g.board p valid_positions ≡ 15
  pub recorded : status_turns g.status ≡ length g.history
  pub status : StatusHolds g.status g.board

-- The game after a turn in which `p` moved.
pub record Played (g : Game) (p : Player) (from to : HexIdx) (r : Game × GameStatus) : Type 0 where
  pub plays : Plays g.board from to p r.0.board
  pub history : r.0.history ≡ g.history ++ (from, to) ∷ []
  pub turns : status_turns r.0.status ≡ status_turns g.status + 1
  pub reported : r.1 ≡ r.0.status
  pub inv : Inv r.0

Player-cases : (q p : Player) → (q ≡ p) ⊎ (q ≢ p)
Player-cases player1 player1 = inl refl
Player-cases player2 player2 = inl refl
Player-cases player1 player2 = inr (λ e. cc)
Player-cases player2 player1 = inr (λ e. cc)

Wins-other :
    (b : Board Player) (from to : HexIdx) (p : Player) (b' : Board Player)
    → Plays b from to p b'
    → (q : Player) → q ≢ p
    → Wins b' q
    → Wins b q
Wins-other b from to p b' m q other w k k_goal =
    (holds_iff b q k).0
      (sym (holds_other b from to p b' m q k other) ∙ (holds_iff b' q k).1 (w k k_goal))

pub mover_step : (t : ℕ) → mover (t + 1) ≡ opponent (mover t)
unfolding opponent
mover_step t = ground arith

mover_back : (t : ℕ) → mover (t + 1 - 1) ≡ mover t
mover_back t = ground arith

usize_add-ok : (E : Type 0) (a b : ℕ) → a + b < usize_limit → usize_add {E = E} a b ≡ ok (a + b)
unfolding usize_add
usize_add-ok E a b h = ground arith

module _ (b : Board Player) (from to : HexIdx) (p : Player) (b' : Board Player)
    (m : Plays b from to p b') (turns : ℕ) (mine : p ≡ mover turns) (open1 : ¬ Wins b player1)
    (open2 : ¬ Wins b player2) where
  not_won : (q : Player) → ¬ Wins b q
  not_won player1 = open1
  not_won player2 = open2

  -- The player that did not move has not won.
  other_not_won : (q : Player) → q ≢ p → ¬ Wins b' q
  other_not_won q other w = not_won q (Wins-other b from to p b' m q other w)

  same_player : (q : Player) → Wins b' q → q ≡ p
  same_player q w = elim (Player-cases q p) [
    | inl same ↦ same
    | inr other ↦ absurd (other_not_won q other w)
  ]

  -- The winner that `check_winner` names is the player that moved.
  ending :
      (winner : Option Player)
      → Verdict b' winner
      → StatusHolds
          (elim winner [
            | some q ↦ finished q (turns + 1) (counted b')
            | none ↦ playing (opponent p) (turns + 1) (counted b')
          ])
          b'
  unfolding opponent
  ending none v = (ap opponent mine ∙ sym (mover_step turns), refl, v.0, v.1)
  ending (some player1) v =
      let same = same_player player1 v in
      (
        (λ e. omega arith),
        same ∙ mine ∙ sym (mover_back turns),
        refl,
        v,
        other_not_won (opponent player1) (λ e. ground (arith, e, same)),
      )
  ending (some player2) v =
      let same = same_player player2 v.1 in
      ((λ e. omega arith), same ∙ mine ∙ sym (mover_back turns), refl, v.1, v.0)

turns_of :
    (winner : Option Player) (p : Player) (turns : ℕ) (scores : Scores)
    → status_turns
        (elim winner [ some q ↦ finished q turns scores | none ↦ playing p turns scores ])
      ≡ turns
unfolding status_turns
turns_of none p turns scores = refl
turns_of (some q) p turns scores = refl

-- The new status: its scores are a recount, and it ends the game when the player that moved has won.
status_after-StatusHolds :
    (E : Type 0) (b : Board Player) (from to : HexIdx) (p : Player) (b' : Board Player) (turns : ℕ)
    (scores : Scores)
    → IsStar b'
    → Plays b from to p b'
    → StatusHolds (playing p turns scores) b
    → turns + 1 < usize_limit
    → Returns
        (λ st. StatusHolds st b' × (status_turns st ≡ turns + 1))
        (status_after {E = E} (playing p turns scores) b' (from, to))
unfolding status_after
status_after-StatusHolds E b from to p b' turns scores star m h small =
    let (left, leaves, enters) =
      >>=-eq-ok (leave_goal p from (counted b)) _ _ (scores-Plays E b from to p b' m) in
    rw (h.1, leaves, enters)
      (Returns-bind (Verdict b') _ (check_winner b') _ (check_winner-Verdict E b' star) λ winner v.
        rw (usize_add-ok E turns 1 small) (
          ending b from to p b' m turns h.0 h.2 h.3 winner v,
          turns_of winner (opponent p) (turns + 1) (counted b'),
        ))

abbrev Follows : GameStatus → Board Player → GameStatus → Type 0
Follows old b' st = StatusHolds st b' × (status_turns st ≡ status_turns old + 1)

status_after-Follows :
    (E : Type 0) (b : Board Player) (from to : HexIdx) (p : Player) (b' : Board Player) (turns : ℕ)
    (scores : Scores) (old : GameStatus)
    → old ≡ playing p turns scores
    → IsStar b'
    → Plays b from to p b'
    → StatusHolds old b
    → turns + 1 < usize_limit
    → Returns (Follows old b') (status_after {E = E} old b' (from, to))
unfolding status_turns
status_after-Follows E b from to p b' turns scores old e star m h small =
    rw e (status_after-StatusHolds E b from to p b' turns scores star m (rw e at h) small)

-- No piece is lost, and none appears.
material_step :
    (b : Board Player) (from to : HexIdx) (p : Player) (b' : Board Player)
    → IsStar b
    → Plays b from to p b'
    → (q : Player) → pieces b' q valid_positions ≡ pieces b q valid_positions
material_step b from to p b' v m q = elim (Player-cases q p) [
  | inl same ↦ rw same (
      ground (
        arith,
        pieces-Plays b from to p b' m valid_positions valid-Distinct,
        v.shape from,
        v.shape to,
        m.start,
        m.free,
      ))
  | inr other ↦ pieces_other b from to p b' m q valid_positions other
]

-- In a game that satisfies the invariant and goes on, with a piece of the player to move on the
-- start, an empty end or an end that is the start, and a turn counter that stays below 2^64,
-- `apply_movement_unchecked` returns: the piece moved and no other cell changed, the history has
-- one entry more, the turns are one more, the status is returned, and the invariant holds again.
pub apply_movement_unchecked-Played :
    (E : Type 0) (g : Game) (from to : HexIdx) (p : Player) (turns : ℕ) (scores : Scores)
    → Inv g
    → g.status ≡ playing p turns scores
    → cell g.board from ≡ some (some p)
    → (cell g.board to ≡ some none) ⊎ (to ≡ from)
    → turns + 1 < usize_limit
    → Returns (Played g p from to) (apply_movement_unchecked {E = E} g (from, to))
unfolding apply_movement_unchecked next_status
apply_movement_unchecked-Played E g from to p turns scores inv e start free small =
    Returns-bind (Moved g.board from to p) (Played g p from to) (move_piece g.board (from, to)) _
      (apply_movement_unchecked-Moved g.board inv.star.square E from to p (landed.0) start landed.1)
      λ b' mv.
        let m : Plays g.board from to p b' = record { moved = mv; start = start; free = free } in
        let star = IsStar-Plays g.board from to p b' inv.star m in
        Returns-bind (Follows g.status b') (Played g p from to)
          (status_after g.status b' (from, to)) _
          (status_after-Follows E g.board from to p b' turns scores g.status e star m inv.status
            small)
          λ st h. record {
            plays = m;
            history = refl;
            turns = h.1;
            reported = refl;
            inv = record {
              star = star;
              material = λ q. material_step g.board from to p b' inv.star m q ∙ inv.material q;
              recorded =
                  omega (arith, h.1, inv.recorded, length-append g.history ((from, to) ∷ []));
              status = h.0;
            };
          }
  where
    landed : (o : Option Player) × (cell g.board to ≡ some o)
    landed = elim free [ inl empty ↦ (none, empty) | inr same ↦ (some p, rw same start) ]
