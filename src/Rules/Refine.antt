-- ===== src/Rules/Refine.antt =====
-- src/sternhalma/mod.rs, `Game`, as a refinement of the match of the rules.
use sternhamla_server.Prelude.{
  ℕ, ◌+◌, ◌-◌, ◌<◌, ◌≡◌, ◌≢◌, ◌↔◌, refl, sym, ◌∙◌, ap, ◌⊎◌, inl, inr, true, Option, none, some,
  contains, contains-mem, mem-contains, Returns, Returns-imp, arith,
}
use sternhamla_server.Player.{Player, player1, player2, opponent}
use sternhamla_server.Board.{Board, goal_indices}
use sternhamla_server.Board.Hex.{HexIdx, idx_eq}
use sternhamla_server.Board.Cells.{cell}
use sternhamla_server.Board.Setup.{start_cell}
use sternhamla_server.Board.Score.{IsStar, Wins}
use sternhamla_server.Game.{
  Game, GameStatus, playing, finished, Scores, status_turns, usize_limit, new_game,
  apply_movement_unchecked,
}
use sternhamla_server.Game.Invariant.{
  mover, mover_step, StatusHolds, Inv, Played, apply_movement_unchecked-Played,
}
use sternhamla_server.Game.Start.{new_game-Inv}
use sternhamla_server.Rules.{
  home, rival, Pieces, Vacant, Jumps, jump, again, lift, MayMove, Victory, Match, Opening, Turn,
  Play,
}
use sternhamla_server.Rules.Star.{contains-home}
use sternhamla_server.Rules.Chains.{
  piece, pieces_on, piece_iff, pieces_on_iff, Vacant-iff, lift_other,
}

-- A game as the rules see it: which cells have which pieces, whose turn it is, and no scores and no
-- history. When the game is over nobody is to move, and the winner stands in.
abbrev pub mover_of : GameStatus → Player
mover_of (playing p _ _) = p
mover_of (finished p _ _) = p

abbrev pub winner_of : GameStatus → Option Player
winner_of (playing _ _ _) = none
winner_of (finished p _ _) = some p

abbrev pub match_of : Game → Match
match_of g = record {
  pieces = pieces_on g.board;
  mover = mover_of g.status;
  turns = status_turns g.status;
  winner = winner_of g.status;
}

-- The game satisfies the invariant, and turns that the rules allow lead to it from the opening.
abbrev pub Good : Game → Type 0
Good g = Inv g × Play (match_of g)

goal_home : (p : Player) (k : HexIdx) → contains (goal_indices p) k ≡ home (rival p) k
goal_home player1 k = (contains-home k).1
goal_home player2 k = (contains-home k).0

pub Victory-iff : (b : Board Player) (p : Player) → Wins b p ↔ Victory (pieces_on b) p
Victory-iff b p = (
  λ w k h. (piece_iff (cell b k) p).0 (w k (contains-mem (goal_indices p) k (goal_home p k ∙ h))),
  λ w k m.
      (piece_iff (cell b k) p).1 (w k (sym (goal_home p k) ∙ mem-contains (goal_indices p) k m)),
)

rival-opponent : (p : Player) → opponent p ≡ rival p
unfolding opponent
rival-opponent player1 = refl
rival-opponent player2 = refl

abbrev Starts : Pieces → Type 0
Starts f =
    ((p : Player) (k : HexIdx) → home p k ≡ true → f k ≡ some p)
    × ((k : HexIdx) → ((p : Player) → home p k ≢ true) → f k ≡ none)

start-Starts : (f : Pieces) → ((k : HexIdx) → f k ≡ piece (start_cell k)) → Starts f
start-Starts f h = (here, elsewhere)
  where
    here : (p : Player) (k : HexIdx) → home p k ≡ true → f k ≡ some p
    here player1 k a = h k ∙ ground (arith, (contains-home k).0, a)
    here player2 k a = h k ∙ ground (arith, (contains-home k).0, (contains-home k).1, a)

    elsewhere : (k : HexIdx) → ((p : Player) → home p k ≢ true) → f k ≡ none
    elsewhere k away =
        h k ∙ ground (arith, (contains-home k).0, (contains-home k).1, away player1, away player2)

-- `Game::new` returns a game that satisfies the invariant and, as the rules see it, is the
-- opening: each player's pieces fill the point of the star where the player begins, every other
-- cell has none, player 1 is to move, and there are no turns and no winner.
pub new_game-Opening :
    (E : Type 0)
    → Returns
        (λ g. Inv g × Opening (match_of g) × (g.status ≡ playing player1 0 (0, 0)))
        (new_game {E = E})
unfolding status_turns
new_game-Opening E =
    Returns-imp _ _ new_game
      (λ g h.
        let starts = start-Starts (pieces_on g.board) (λ k. ap piece (h.3 k)) in
        (
          h.0,
          record {
            pieces = starts.0;
            others = starts.1;
            mover = ap mover_of h.1;
            turns = ap status_turns h.1;
            winner = ap winner_of h.1;
          },
          h.1,
        ))
      (new_game-Inv E)

not_won : (b : Board Player) (p : Player) → ¬ Wins b player1 → ¬ Wins b player2 → ¬ Wins b p
not_won b player1 h1 h2 = h1
not_won b player2 h1 h2 = h2

-- What the status after a turn of `p` says.
turn_outcome :
    (b : Board Player) (p : Player) (turns : ℕ) (st : GameStatus)
    → p ≡ mover turns
    → status_turns st ≡ turns + 1
    → StatusHolds st b
    → (Wins b p × (winner_of st ≡ some p))
      ⊎ (¬ Wins b p × (winner_of st ≡ none) × (mover_of st ≡ rival p))
unfolding status_turns
turn_outcome b p turns (playing q t scores) mine counted h = inr (
  not_won b p h.2 h.3,
  refl,
  h.0 ∙ ap mover counted ∙ mover_step turns ∙ ap opponent (sym mine) ∙ rival-opponent p,
)
turn_outcome b p turns (finished q t scores) mine counted h =
    let same : q ≡ p = h.1 ∙ ap (λ n. mover (n - 1)) counted ∙ ap mover (omega arith) ∙ sym mine in
    inl (rw same at h.3, ap some same)

pub Played-Turn :
    (g : Game) (p : Player) (turns : ℕ) (scores : Scores) (a c : HexIdx) (r : Game × GameStatus)
    → Inv g
    → g.status ≡ playing p turns scores
    → MayMove (pieces_on g.board) p a c
    → Played g p a c r
    → Turn (match_of g) a c (match_of r.0)
unfolding status_turns
Played-Turn g p turns scores a c r inv e may played = record {
  open_game = ap winner_of e;
  allowed = rw e may;
  pieces = λ k. rw e (ap piece (played.plays.moved.cells k) ∙ ground arith);
  turns = played.turns;
  outcome =
      rw e
        (elim (turn_outcome r.0.board p turns r.0.status (rw e at inv.status).0
          (played.turns ∙ ap (λ st. status_turns st + 1) e) played.inv.status) [
            | inl (w, won) ↦ inl ((Victory-iff r.0.board p).0 w, won)
            | inr (w, open_game, next) ↦
                inr ((λ v. w ((Victory-iff r.0.board p).1 v)), open_game, next)
          ]);
}

Jumps-free : (f : Pieces) (a c : HexIdx) → Jumps f a c → Vacant f c
Jumps-free f a c (jump c1 j) = j.free
Jumps-free f a c (again m c1 js j) = j.free

MayMove-free :
    (b : Board Player) (v : IsStar b) (p : Player) (a c : HexIdx)
    → MayMove (pieces_on b) p a c
    → (cell b c ≡ some none) ⊎ (c ≡ a)
MayMove-free b v p a c (at_a, away, inl (d, near, free)) = inl ((Vacant-iff b v c).1 free)
MayMove-free b v p a c (at_a, away, inr js) =
    let vacant = Jumps-free (lift (pieces_on b) a) a c js in
    inl ((Vacant-iff b v c).1 (vacant.0, sym (lift_other (pieces_on b) a c away) ∙ vacant.1))

-- In a game that satisfies the invariant and goes on, with a turn counter that stays below 2^64,
-- whatever the rules allow the player to move, `apply_movement_unchecked` does: it returns a game
-- that satisfies the invariant and stands one turn of the rules later, the winner included.
pub apply_movement_unchecked-Turn :
    (E : Type 0) (g : Game) (p : Player) (turns : ℕ) (scores : Scores) (a c : HexIdx)
    → Inv g
    → g.status ≡ playing p turns scores
    → turns + 1 < usize_limit
    → MayMove (pieces_on g.board) p a c
    → Returns
        (λ r. Inv r.0 × (r.1 ≡ r.0.status) × Turn (match_of g) a c (match_of r.0))
        (apply_movement_unchecked {E = E} g (a, c))
apply_movement_unchecked-Turn E g p turns scores a c inv e small may =
    Returns-imp (Played g p a c) _ (apply_movement_unchecked g (a, c))
      (λ r played.
        (played.inv, played.reported, Played-Turn g p turns scores a c r inv e may played))
      (apply_movement_unchecked-Played E g a c p turns scores inv e
        ((pieces_on_iff g.board inv.star a p).1 may.0) (MayMove-free g.board inv.star p a c may)
        small)
