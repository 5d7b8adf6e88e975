-- ===== src/Server/Loop.antt =====
-- src/server/mod.rs, `game_loop`, `run` and `try_run`. The timer of `game_loop` only logs, and is
-- left out.
use sternhamla_server.Prelude.{
  ℕ, zero, suc, Bool, ok, true, false, Option, none, some, List, [], ◌++◌, map, length, Eq, leb,
  if◌then◌else◌,
}
use sternhamla_server.Player.{count}
use sternhamla_server.Movement.{MovementIndices}
use sternhamla_server.Game.{Game, GameStatus, playing, finished, GameResult, won, max_turns}
use sternhamla_server.Game.{new_game}
use sternhamla_server.Messages.{ServerBroadcast, ClientMessage}
use sternhamla_server.Server.{
  MainThreadMessage, Server, Run, returned, failed, waiting, crashed, spent, ServerError, timed_out,
  not_broadcast, emit, announced,
}
use sternhamla_server.Server.Connect.{wait_players_connect, disconnect_players}
use sternhamla_server.Server.Turn.{TurnEvent, main, handle_turn}

-- What the turns receive, each with the fate of the message that its handler sends.
abbrev pub Events : Type 0 → Type 0 → Type 0
Events Uuid Sender = List (TurnEvent Uuid Sender × Bool)

module _ {Uuid Sender : Type 0} where
  -- The result goes to all clients; `send` fails if no task listens.
  abbrev pub announce_result :
      Bool
      → GameResult
      → Server Uuid Sender
      → Events Uuid Sender
      → Run Uuid Sender (TurnEvent Uuid Sender × Bool) (Unit {0})
  announce_result true r s evs =
      returned tt (emit s (announced (ServerBroadcast.game_finished r))) evs
  announce_result false r s evs = failed not_broadcast s

module _ {Uuid Sender : Type 0} ⦃e : Eq Uuid⦄ where
  -- What `run` returned, once the players are gone or the channel has closed.
  abbrev pub close :
      Bool
      → List (Option ClientMessage)
      → Option ServerError
      → Server Uuid Sender
      → Run Uuid Sender (Option ClientMessage) (Option ServerError)
  close heard leavers result s = elim (disconnect_players heard leavers s) [
    | returned _ s' left ↦ returned result s' left
    | failed x s' ↦ returned result s' []
    | waiting s' ↦ waiting s'
    | crashed ↦ crashed
    | spent ↦ spent
  ]

module _ {Uuid Sender : Type 0} ⦃e : Eq Uuid⦄ (unique : List MovementIndices → List MovementIndices)
    (reach : ℕ → Bool) (limit : ℕ) where
  -- One round of the loop, over the rounds that follow it. `reach n` says whether the message that
  -- opens turn `n` can be sent.
  unfoldable pub game_round :
      (Game
        → Events Uuid Sender
        → Server Uuid Sender
        → Run Uuid Sender (TurnEvent Uuid Sender × Bool) GameResult)
      → GameStatus
      → Game
      → Events Uuid Sender
      → Server Uuid Sender
      → Run Uuid Sender (TurnEvent Uuid Sender × Bool) GameResult
  unfolding handle_turn
  game_round again (finished winner turns scores) g evs s = returned (won winner turns scores) s evs
  game_round again (playing player turns scores) g evs s =
      if leb limit turns
      then returned (max_turns turns scores) s evs
      else elim (handle_turn unique (reach turns) player g evs s) [
        | returned (g', status) s' evs' ↦ again g' evs' s'
        | failed x s' ↦ failed x s'
        | waiting s' ↦ waiting s'
        | crashed ↦ crashed
        | spent ↦ spent
      ]

  unfoldable pub rounds :
      ℕ
      → Game
      → Events Uuid Sender
      → Server Uuid Sender
      → Run Uuid Sender (TurnEvent Uuid Sender × Bool) GameResult
  unfolding game_round
  rounds zero g evs s = spent
  rounds (suc fuel) g evs s = game_round (λ g' evs' s'. rounds fuel g' evs' s') g.status g evs s

  -- Each turn takes a message, so one round more than there are messages is enough.
  unfoldable pub game_loop :
      Events Uuid Sender
      → Server Uuid Sender
      → Run Uuid Sender (TurnEvent Uuid Sender × Bool) GameResult
  unfolding new_game rounds
  game_loop evs s = elim (new_game {E = Unit {0}}) [
    | ok g ↦ rounds (suc (length evs)) g evs s
    | _ ↦ crashed
  ]

  -- `ms` are the messages of the main thread until the timeout. Those that the connection phase
  -- leaves are received in the first turn.
  unfoldable pub run :
      Bool
      → List (Option (MainThreadMessage Uuid Sender))
      → Events Uuid Sender
      → Server Uuid Sender
      → Run Uuid Sender (TurnEvent Uuid Sender × Bool) (Unit {0})
  unfolding wait_players_connect game_loop count
  run heard ms evs s = elim (wait_players_connect count ms s) [
    | returned _ s' left ↦ elim (game_loop (map (λ m. (main m, true)) left ++ evs) s') [
      | returned r s'' evs' ↦ announce_result heard r s'' evs'
      | failed x s'' ↦ failed x s''
      | waiting s'' ↦ waiting s''
      | crashed ↦ crashed
      | spent ↦ spent
    ]
    | failed x s' ↦ failed x s'
    | waiting s' ↦ failed timed_out s'
    | crashed ↦ crashed
    | spent ↦ spent
  ]

  unfoldable pub try_run :
      Bool
      → Bool
      → List (Option (MainThreadMessage Uuid Sender))
      → Events Uuid Sender
      → List (Option ClientMessage)
      → Server Uuid Sender
      → Run Uuid Sender (Option ClientMessage) (Option ServerError)
  unfolding run disconnect_players
  try_run heard listening ms evs leavers s = elim (run heard ms evs s) [
    | returned _ s' _ ↦ close listening leavers none s'
    | failed x s' ↦ close listening leavers (some x) s'
    | waiting s' ↦ waiting s'
    | crashed ↦ crashed
    | spent ↦ spent
  ]
