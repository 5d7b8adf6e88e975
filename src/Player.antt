-- ===== src/Player.antt =====
-- src/sternhalma/board/player.rs: the two players.
use sternhamla_server.Prelude.{◌≡◌, ◌↔◌, Bool, true, false, ℕ, List, [], ◌∷◌, length, Eq, arith}

pub data Player : Type 0 where
  player1 player2 : Player

-- The derived `PartialEq`.
abbrev pub player_beq : Player → Player → Bool
player_beq player1 player1 = true
player_beq player2 player2 = true
player_beq player1 player2 = false
player_beq player2 player1 = false

pub player_beq_iff : (a b : Player) → (player_beq a b ≡ true) ↔ (a ≡ b)
player_beq_iff player1 player1 = ground arith
player_beq_iff player2 player2 = ground arith
player_beq_iff player1 player2 = ground arith
player_beq_iff player2 player1 = ground arith

instance abbrev pub player_eq : Eq Player
player_eq = record { eqb = player_beq; eqb_iff = player_beq_iff }

abbrev pub player_count : ℕ
player_count = 2

abbrev pub variants : List Player
variants = player1 ∷ player2 ∷ []

unfoldable pub count : ℕ
count = length variants

unfoldable pub opponent : Player → Player
opponent player1 = player2
opponent player2 = player1
