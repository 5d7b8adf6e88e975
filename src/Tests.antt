-- ===== src/Tests.antt =====
-- Concrete inputs for the tests: the game at the start, a first move, `unique`, a server with both
-- players.
pub mod Boards
pub mod Games
pub mod Servers
pub mod Clients
pub mod Rules
pub mod Codecs
pub mod Binaries
use sternhamla_server.Prelude.{
  ℕ, ◌≡◌, ◌↔◌, ◌⊎◌, inl, inr, refl, ap, Bool, ◌&&◌, true, false, some, none, List, [], ◌∷◌,
  contains, contains-mem, not-mem_of_contains, ◌∈◌, Exec, ok, Returns-elim, Eq, ◌==◌, if◌then◌else◌,
  Bool-cases, arith,
}
use sternhamla_server.Player.{Player, player1, player2}
use sternhamla_server.Board.{Board, new}
use sternhamla_server.Board.Hex.{HexIdx, idx_eq, idx_beq, idx_beq_iff}
use sternhamla_server.Board.Cells.{IsSquare, cell}
use sternhamla_server.Board.Setup.{start_cell, new-start_cell}
use sternhamla_server.Movement.{Movement, move, hops, MovementIndices, to_indices}
use sternhamla_server.Game.{Game, GameStatus, GameError, new_game, playing, apply_movement}
use sternhamla_server.Game.Invariant.{Played}
use sternhamla_server.Game.Apply.{apply_movement-Played}
use sternhamla_server.Game.Invariant.{Inv}
use sternhamla_server.Game.Start.{new_game-Inv}
use sternhamla_server.Prelude.{◌∙◌}
use sternhamla_server.Board.Lut.{
  valid_positions, player1_starting_positions, player2_starting_positions,
}
use sternhamla_server.Messages.{ClientRequest, ClientMessage}
use sternhamla_server.Server.{
  Server, no_player, MainThreadMessage, client_connected, client_reconnected, request_free_player,
}
use sternhamla_server.Server.Turn.{TurnEvent, main, client}
use sternhamla_server.Server.Loop.{Events}
use sternhamla_server.Server.Steps.{Paired}

-- The game that `new_game` returns.
abbrev pub start :
    (g : Game) × (new_game {E = GameError} ≡ ok g)
    × (Inv g
        × (g.status ≡ playing player1 0 (0, 0))
        × (g.history ≡ [])
        × ((k : HexIdx) → cell g.board k ≡ start_cell k))
start = Returns-elim _ new_game (new_game-Inv GameError)

abbrev pub game : Game
game = start.0

abbrev pub game_inv : Inv game
game_inv = start.2.0

abbrev pub game_going : game.status ≡ playing player1 0 (0, 0)
game_going = start.2.1

abbrev pub first_move : Movement
first_move = move (12, 4) (11, 4)

start_here : start_cell (12, 4) ≡ some (some player1)
unfolding player1_starting_positions
start_here = refl

end_here : start_cell (11, 4) ≡ some none
unfolding player1_starting_positions player2_starting_positions valid_positions
end_here = refl

pub at_start : cell game.board (12, 4) ≡ some (some player1)
at_start = start.2.3 (12, 4) ∙ start_here

pub free_end : cell game.board (11, 4) ≡ some none
free_end = start.2.3 (11, 4) ∙ end_here

-- `unique`: the first of equal elements stays.
ends_beq : MovementIndices → MovementIndices → Bool
ends_beq a b = (a.0 == b.0) && (a.1 == b.1)

ends_beq_iff : (a b : MovementIndices) → (ends_beq a b ≡ true) ↔ (a ≡ b)
unfolding ends_beq
ends_beq_iff (a, b) (c, d) = ground (arith, idx_beq_iff a c, idx_beq_iff b d)

instance ends_eq : Eq MovementIndices
ends_eq = record { eqb = ends_beq; eqb_iff = ends_beq_iff }

pub unique_after : List MovementIndices → List MovementIndices → List MovementIndices
unfolding ends_eq
unique_after seen [] = []
unique_after seen (m ∷ ms) =
    let rest = unique_after seen ms in
    let fresh = unique_after (m ∷ seen) ms in if contains seen m then rest else m ∷ fresh

unique_after-sound :
    (seen l : List MovementIndices) (m : MovementIndices) → m ∈ unique_after seen l → m ∈ l
unfolding unique_after
unique_after-sound seen [] m h = absurd h
unique_after-sound seen (x ∷ l) m h = elim (Bool-cases (contains seen x)) [
  | inl old ↦ inr (unique_after-sound seen l m (rw old at h))
  | inr new ↦ elim (rw new at h) as (λ _. (m ≡ x) ⊎ (m ∈ l)) [
    | inl first ↦ inl first
    | inr later ↦ inr (unique_after-sound (x ∷ seen) l m later)
  ]
]

unique_after-complete :
    (seen l : List MovementIndices) (m : MovementIndices)
    → m ∈ l
    → (m ∈ seen) ⊎ (m ∈ unique_after seen l)
unfolding unique_after
unique_after-complete seen [] m h = absurd h
unique_after-complete seen (x ∷ l) m (inl first) = elim (Bool-cases (contains seen x)) [
  | inl old ↦ inl (rw first (contains-mem seen x old))
  | inr new ↦ inr (rw new (inl first))
]
unique_after-complete seen (x ∷ l) m (inr later) = elim (Bool-cases (contains seen x)) [
  | inl old ↦ rw old (unique_after-complete seen l m later)
  | inr new ↦ elim (unique_after-complete (x ∷ seen) l m later) [
    | inl earlier ↦ elim earlier [ inl same ↦ inr (rw new (inl same)) | inr old ↦ inl old ]
    | inr kept ↦ inr (rw new (inr kept))
  ]
]

abbrev pub unique : List MovementIndices → List MovementIndices
unique l = unique_after [] l

pub unique-same : (l : List MovementIndices) (m : MovementIndices) → (m ∈ unique l) ↔ (m ∈ l)
unique-same l m = (
  unique_after-sound [] l m,
  λ h. elim (unique_after-complete [] l m h) [ inl none_seen ↦ absurd none_seen | inr kept ↦ kept ],
)

-- A server with both players, whose channels are numbers.
abbrev pub server : Server ℕ ℕ
server = record {
  clients_tx = record { first = some 1; second = some 2 };
  sessions = (10, player1) ∷ (20, player2) ∷ [];
  disconnected = no_player;
  out = [];
}

abbrev pub connecting : List (MainThreadMessage ℕ ℕ)
connecting =
    request_free_player
    ∷ client_connected player1 10 1
    ∷ request_free_player
    ∷ client_connected player2 20 2
    ∷ []

-- Player 2 speaks out of turn, player 1 leaves, comes back and moves.
abbrev pub events : Events ℕ ℕ
events =
    (client (some (record { player = player2; request = ClientRequest.choice 0 })), true)
    ∷ (client (some (record { player = player1; request = ClientRequest.disconnect })), true)
    ∷ (main (some (client_reconnected player1 3)), true)
    ∷ (client (some (record { player = player1; request = ClientRequest.choice 0 })), true)
    ∷ []

pub server-Paired : Paired server
server-Paired player1 = refl
server-Paired player2 = refl

-- The game after the first move.
abbrev pub after :
    (r : Game × GameStatus) × (apply_movement game first_move ≡ ok r)
    × ((from to : HexIdx) × (to_indices {E = GameError} first_move ≡ ok (from, to))
        × Played game player1 from to r)
after = Returns-elim _ (apply_movement game first_move) (
    apply_movement-Played game first_move player1 0 (0, 0) game_inv game_going (at_start, free_end)
      (omega arith))
