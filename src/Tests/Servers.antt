-- ===== src/Tests/Servers.antt =====
-- The theorems on the server, for a run with a disconnection in the first turn.
use sternhamla_server.Prelude.{
  ℕ, ◌≡◌, ◌⊎◌, inl, inr, refl, true, false, some, List, [], ◌∷◌, map, ok, nat_eq, arith,
}
use sternhamla_server.Player.{Player, player1, player2, count}
use sternhamla_server.Movement.{MovementIndices}
use sternhamla_server.Messages.{ClientRequest, ClientMessage}
use sternhamla_server.Server.{Server, new_server, contains_key, get, free_player, session_player}
use sternhamla_server.Server.Turn.{available_moves, handle_turn}
use sternhamla_server.Server.Steps.{Turned}
use sternhamla_server.Server.Turns.{handle_turn-Turned}
use sternhamla_server.Server.Rounds.{Closed, game_loop-Closed}
use sternhamla_server.Server.Connect.{wait_players_connect, await_leavers}
use sternhamla_server.Server.Connected.{Gathering, Gathered, wait_players_connect-Gathered}
use sternhamla_server.Server.Arrivals.{HasReturned, wait_players_connect-returns}
use sternhamla_server.Server.Leavers.{Leaves, await_leavers-returns}
use sternhamla_server.Server.Loop.{game_loop, run, try_run}
use sternhamla_server.Server.Whole.{Wound, try_run-Wound}
use sternhamla_server.Server.Seats.{Distinct, new_ids}
use sternhamla_server.Prelude.{not-mem_of_contains}
use sternhamla_server.Server.Sessions.{SeatedAtEnd, run-SeatedAtEnd}
use sternhamla_server.Handshake.{handle_handshake}
use sternhamla_server.Handshake.Session.{
  serve, greeting, Sincere, handle_handshake-session_player, handle_handshake-Sincere,
}
use sternhamla_server.Handshake.Race.{asked, Welcomes, handle_handshake-asked}
use sternhamla_server.Handshake.Turns.{
  returning, arriving, Joined, handle_handshake-Joined, handle_handshake-waiting,
}
use sternhamla_server.Server.Turn.{turn_loop}
use sternhamla_server.Server.{waiting, emit, answered, client_connected, request_free_player}
use sternhamla_server.Prelude.{none}
use sternhamla_server.Messages.{RemoteOutMessage}
use sternhamla_server.Tests.{
  game, game_inv, game_going, unique, unique-same, server, server-Paired, connecting, events,
}

handle_turn-Turned_example :
    (movements : List MovementIndices) × (available_moves {E = Unit {0}} unique game ≡ ok movements)
    × Turned movements player1 game (handle_turn unique true player1 game events server)
handle_turn-Turned_example =
    handle_turn-Turned unique unique-same true player1 game 0 (0, 0) game_inv game_going
      (omega arith) events server server-Paired

game_loop-Closed_example : Closed 200 (game_loop unique (λ _. true) 200 events server)
game_loop-Closed_example =
    game_loop-Closed unique unique-same (λ _. true) 200 (omega arith) events server server-Paired

nobody : Gathering (new_server {Uuid = ℕ} {Sender = ℕ})
nobody = record { nobody_gone = refl; sessions_live = tt }

wait_players_connect-Gathered_example :
    Gathered (wait_players_connect count (map some connecting) new_server)
wait_players_connect-Gathered_example =
    wait_players_connect-Gathered (map some connecting) new_server nobody

wait_players_connect-returns_example :
    HasReturned (wait_players_connect count (map some connecting) new_server)
wait_players_connect-returns_example =
    wait_players_connect-returns connecting new_server (inr (inl (10, 1, refl)))
      (inr (inr (inr (inl (20, 2, refl)))))

leaving : List ClientMessage
leaving =
    record { player = player2; request = ClientRequest.disconnect }
    ∷ record { player = player1; request = ClientRequest.choice 3 }
    ∷ record { player = player1; request = ClientRequest.disconnect }
    ∷ []

Leaves-in_turn : (p : Player) → (contains_key server.clients_tx p ≡ false) ⊎ Leaves p leaving
unfolding leaving
Leaves-in_turn player1 = inr (inr (inr (inl refl)))
Leaves-in_turn player2 = inr (inl refl)

await_leavers-returns_example : HasReturned (await_leavers (map some leaving) server)
await_leavers-returns_example = await_leavers-returns leaving server Leaves-in_turn

try_run-Wound_example : Wound (
    try_run unique
      (λ _. true)
      200
      true
      true
      (map some connecting)
      events
      (map some leaving)
      (new_server {Uuid = ℕ} {Sender = ℕ}))
try_run-Wound_example =
    try_run-Wound unique unique-same (λ _. true) 200 (omega arith) true true (map some connecting)
      events (map some leaving)

unlike_ids : Distinct (new_ids (map some connecting))
unlike_ids = (not-mem_of_contains (20 ∷ []) 10 refl, (λ m. m, tt))

run-SeatedAtEnd_example : SeatedAtEnd (
    run unique
      (λ _. true)
      200
      true
      (map some connecting)
      events
      (new_server {Uuid = ℕ} {Sender = ℕ}))
run-SeatedAtEnd_example =
    run-SeatedAtEnd unique unique-same (λ _. true) 200 (omega arith) true (map some connecting)
      events unlike_ids

player1_free : free_player (new_server {Uuid = ℕ} {Sender = ℕ}) ≡ some player1
unfolding free_player
player1_free = refl

handle_handshake-session_player_example :
    let s' : Server ℕ ℕ = serve new_server (handle_handshake (greeting new_server 10 1)).sent in
    (get s'.clients_tx player1 ≡ some 1) × (session_player 10 s'.sessions ≡ some player1)
handle_handshake-session_player_example =
    handle_handshake-session_player new_server player1 10 1 player1_free

session_unknown : session_player 30 (new_server {Uuid = ℕ} {Sender = ℕ}).sessions ≡ none
unfolding session_player
session_unknown = refl

handle_handshake-asked_example :
    let s' : Server ℕ ℕ = serve new_server (
      request_free_player
      ∷ request_free_player
      ∷ client_connected player1 10 1
      ∷ client_connected player1 30 3
      ∷ []) in
    Welcomes {Uuid = ℕ} {Sender = ℕ} player1 10 1 (handle_handshake (greeting new_server 10 1))
    × Welcomes {Uuid = ℕ} {Sender = ℕ} player1 30 3
        (handle_handshake (greeting (asked new_server) 30 3))
    × (get s'.clients_tx player1 ≡ some 1)
    × (session_player 30 s'.sessions ≡ none)
handle_handshake-asked_example =
    handle_handshake-asked new_server player1 10 30 1 3 player1_free (λ x. cc x) session_unknown

handle_handshake-Sincere_example :
    Sincere
      (greeting (new_server {Uuid = ℕ} {Sender = ℕ}) 10 1)
      (handle_handshake (greeting new_server 10 1))
handle_handshake-Sincere_example = handle_handshake-Sincere (greeting new_server 10 1)

-- Player 1 has left; its session is 10.
abbrev left_alone : Server ℕ ℕ
left_alone = record {
  clients_tx = record { first = none; second = some 2 };
  sessions = (10, player1) ∷ (20, player2) ∷ [];
  disconnected = record { first = some tt; second = none };
  out = [];
}

known : session_player 10 left_alone.sessions ≡ some player1
unfolding session_player
known = refl

free : free_player left_alone ≡ some player1
unfolding free_player
free = refl

abbrev list : List MovementIndices
list = ((12, 4), (11, 4)) ∷ []

handle_handshake-Joined_example :
    ((handle_handshake (returning left_alone 10 3)).told ≡ RemoteOutMessage.welcome 10 ∷ [])
    × ((handle_handshake (returning left_alone 10 3)).task ≡ some player1)
    × (s' : Server ℕ ℕ) × (turn_loop list player1 game
          (arriving (handle_handshake (returning left_alone 10 3)).sent)
          left_alone
        ≡ waiting s')
    × Joined list player1 player1 3 left_alone s'
handle_handshake-Joined_example =
    handle_handshake-Joined list player1 player1 3 game 10 left_alone known refl

handle_handshake-waiting_example :
    ((handle_handshake (greeting left_alone 30 3)).told ≡ RemoteOutMessage.welcome 30 ∷ [])
    × ((handle_handshake (greeting left_alone 30 3)).task ≡ some player1)
    × (turn_loop list player2 game
          (arriving (handle_handshake (greeting left_alone 30 3)).sent)
          left_alone
        ≡ waiting (emit left_alone (answered (some player1))))
handle_handshake-waiting_example =
    handle_handshake-waiting list player2 player1 3 game 30 left_alone free
