-- ===== src/Tests/Clients.antt =====
-- The theorems on the client task of player 2.
use sternhamla_server.Prelude.{
  Returns, ℕ, ◌≡◌, ◌≢◌, Bool, true, some, List, [], ◌∷◌, All, ok, arith,
}
use sternhamla_server.Player.{player2}
use sternhamla_server.Board.Hex.{Inside}
use sternhamla_server.Movement.{MovementIndices}
use sternhamla_server.Game.{GameError}
use sternhamla_server.Messages.{ServerMessage, RemoteInMessage}
use sternhamla_server.Client.{
  Outbox, Received, from_server, from_remote, remote_error, remote_ended, crashed,
  relative_movement, run,
}
use sternhamla_server.Client.Relative.{Viewed, relative_movement-Viewed}
use sternhamla_server.Client.Forward.{Forwards, run-Forwards}
use sternhamla_server.Client.Task.{Own, run-Own}

relative_movement-Viewed_example :
    Returns
      (λ m'.
        Viewed player2 (4, 12) m'.0
        × Viewed player2 (5, 11) m'.1
        × (relative_movement {E = GameError} player2 m' ≡ ok ((4, 12), (5, 11))))
      (relative_movement {E = GameError} player2 ((4, 12), (5, 11)))
relative_movement-Viewed_example =
    relative_movement-Viewed GameError player2 ((4, 12), (5, 11)) (omega arith, omega arith)
      (omega arith, omega arith)

abbrev outbox : Outbox ℕ
outbox = record { remote = []; server = [] }

abbrev offered : List MovementIndices
offered = ((4, 12), (5, 11)) ∷ ((4, 12), (5, 12)) ∷ []

on_square : All (λ (m : MovementIndices). Inside m.0 × Inside m.1) offered
on_square = (
  ((omega arith, omega arith), (omega arith, omega arith)),
  (((omega arith, omega arith), (omega arith, omega arith)), tt),
)

abbrev received : List (Received ℕ × Bool)
received =
    (from_server (some (ServerMessage.turn offered)), true)
    ∷ (from_remote RemoteInMessage.hello, true)
    ∷ (remote_error, true)
    ∷ (from_remote (RemoteInMessage.choice 1), true)
    ∷ (remote_ended, true)
    ∷ []

run-Own_example :
    Own player2 (run player2 received outbox).0 × ((run player2 received outbox).1 ≢ crashed)
run-Own_example = run-Own player2 received outbox (on_square, (tt, (tt, (tt, (tt, tt))))) tt

run-Forwards_example : Forwards player2 received outbox (run player2 received outbox)
run-Forwards_example = run-Forwards player2 received outbox
