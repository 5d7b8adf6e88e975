-- ===== src/Rules.antt =====
-- The rules of the game for two players, written from the geometry of the board and without the
-- code's tables, lists and paths: what the code is measured against.
pub mod Star
pub mod Chains
pub mod Moves
pub mod Refine
use package.sternhamla_server.Prelude.{
  ℕ, ◌+◌, ◌≡◌, ◌≢◌, ◌⊎◌, Bool, true, ◌&&◌, ◌||◌, Option, none, some, leb, ◌==◌, if◌then◌else◌,
}
use package.sternhamla_server.Player.{Player, player1, player2}
use package.sternhamla_server.Board.Hex.{HexIdx, idx_eq}
use package.sternhamla_server.Board.Direction.{HexDirection}
use package.sternhamla_server.Board.Neighbours.{Toward}

-- The star is two large triangles, one on the other.
abbrev pub on_star : HexIdx → Bool
on_star (q, r) = (leb q 12 && leb r 12 && leb 12 (q + r)) || (leb 4 q && leb 4 r && leb (q + r) 20)

-- The point of the star where a player begins.
abbrev pub home : Player → HexIdx → Bool
home player1 (q, r) = leb 12 q && leb 4 r && leb (q + r) 20
home player2 (q, r) = leb q 4 && leb r 12 && leb 12 (q + r)

abbrev pub rival : Player → Player
rival player1 = player2
rival player2 = player1

-- Where the pieces stand.
abbrev pub Pieces : Type 0
Pieces = HexIdx → Option Player

abbrev pub Vacant : Pieces → HexIdx → Type 0
Vacant f k = (on_star k ≡ true) × (f k ≡ none)

-- A jump over one piece, straight on to a vacant cell.
pub record Jump (f : Pieces) (a c : HexIdx) : Type 0 where
  pub direction : HexDirection
  pub over : HexIdx
  pub piece : Player
  pub near : Toward direction a over
  pub taken : f over ≡ some piece
  pub far : Toward direction over c
  pub free : Vacant f c

-- One jump after the other.
pub data Jumps (f : Pieces) (a : HexIdx) : HexIdx → Type 0 where
  jump : (c : HexIdx) → Jump f a c → Jumps f a c
  again : (b c : HexIdx) → Jumps f a b → Jump f b c → Jumps f a c

abbrev pub lift : Pieces → HexIdx → Pieces
lift f a k = if a == k then none else f k

-- The player lifts a piece, and puts it on another cell: a neighbour, or one that jumps lead to.
abbrev pub MayMove : Pieces → Player → HexIdx → HexIdx → Type 0
MayMove f p a c =
    (f a ≡ some p)
    × (c ≢ a)
    × (((d : HexDirection) × Toward d a c × Vacant f c) ⊎ Jumps (lift f a) a c)

-- The player has a piece on every cell of the other's home.
abbrev pub Victory : Pieces → Player → Type 0
Victory f p = (k : HexIdx) → home (rival p) k ≡ true → f k ≡ some p

pub record Match : Type 0 where
  pub pieces : Pieces
  pub mover : Player
  pub turns : ℕ
  pub winner : Option Player

pub record Opening (s : Match) : Type 0 where
  pub pieces : (p : Player) (k : HexIdx) → home p k ≡ true → s.pieces k ≡ some p
  pub others : (k : HexIdx) → ((p : Player) → home p k ≢ true) → s.pieces k ≡ none
  pub mover : s.mover ≡ player1
  pub turns : s.turns ≡ 0
  pub winner : s.winner ≡ none

-- One turn: with no winner yet, the mover moves a piece, and wins or hands over.
pub record Turn (s : Match) (a c : HexIdx) (t : Match) : Type 0 where
  pub open_game : s.winner ≡ none
  pub allowed : MayMove s.pieces s.mover a c
  pub pieces : (k : HexIdx) → t.pieces k ≡ (if c == k then some s.mover else lift s.pieces a k)
  pub turns : t.turns ≡ s.turns + 1
  pub outcome :
      (Victory t.pieces s.mover × (t.winner ≡ some s.mover))
      ⊎ (¬ Victory t.pieces s.mover × (t.winner ≡ none) × (t.mover ≡ rival s.mover))

-- A match after some turns.
pub data Play : Match → Type 0 where
  opening : (s : Match) → Opening s → Play s
  turn : (s t : Match) (a c : HexIdx) → Play s → Turn s a c t → Play t
