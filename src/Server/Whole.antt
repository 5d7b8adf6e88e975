-- ===== src/Server/Whole.antt =====
-- `run` and `try_run`: the server task from its start to its end.
use sternhamla_server.Prelude.{
  ℕ, ◌<◌, ◌≡◌, ◌≢◌, ◌↔◌, refl, Bool, true, false, Option, some, none, List, [], ◌∷◌, ◌++◌, map, ◌∈◌,
  Eq,
}
use sternhamla_server.Player.{Player, count}
use sternhamla_server.Movement.{MovementIndices}
use sternhamla_server.Game.{GameResult, usize_limit}
use sternhamla_server.Messages.{ServerBroadcast, ClientMessage}
use sternhamla_server.Server.{
  Effect, Server, MainThreadMessage, ServerError, unknown_player, Run, returned, failed, waiting,
  crashed, spent, contains_key, announced, new_server,
}
use sternhamla_server.Server.Turn.{TurnEvent, main}
use sternhamla_server.Server.Connect.{wait_players_connect, disconnect_players}
use sternhamla_server.Server.Loop.{Events, game_loop, announce_result, run, close, try_run}
use sternhamla_server.Server.Connected.{
  Gathering, Connected, Gathered, wait_players_connect-Gathered,
}
use sternhamla_server.Server.Leavers.{Left, await_leavers-Left}
use sternhamla_server.Server.Steps.{Paired}
use sternhamla_server.Server.Rounds.{Closed, Concluded, game_loop-Closed}

-- The last thing sent is the result of the game.
pub record Announced {Sender : Type 0} (limit : ℕ) (out : List (Effect Sender)) : Type 0 where
  pub result : GameResult
  pub concluded : Concluded limit result
  pub before : List (Effect Sender)
  pub told : out ≡ before ++ announced (ServerBroadcast.game_finished result) ∷ []

module _ {Uuid Sender : Type 0} where
  -- How `run` may end.
  abbrev pub Finished : ℕ → Run Uuid Sender (TurnEvent Uuid Sender × Bool) (Unit {0}) → Type 0
  Finished limit (returned _ s left) = Announced limit s.out
  Finished limit (failed x s) = x ≢ unknown_player
  Finished limit (waiting s) = Unit
  Finished limit crashed = ⊥
  Finished limit spent = ⊥

  -- How `try_run` may end.
  abbrev pub Wound : Run Uuid Sender (Option ClientMessage) (Option ServerError) → Type 0
  Wound (returned result s left) = result ≢ some unknown_player
  Wound (failed x s) = ⊥
  Wound (waiting s) = Unit
  Wound crashed = ⊥
  Wound spent = ⊥

  Paired-of_Connected : (s : Server Uuid Sender) → Gathering s → Connected s → Paired s
  Paired-of_Connected s h c p = rw (h.nobody_gone, c p) (nobody p)
    where
      nobody :
          (p : Player)
          → contains_key {V = Unit {0}} (new_server {Uuid = Uuid} {Sender = Sender}).disconnected p
            ≡ false
      nobody Player.player1 = refl
      nobody Player.player2 = refl

  announced-Finished :
      (limit : ℕ) (heard : Bool) (r : Run Uuid Sender (TurnEvent Uuid Sender × Bool) GameResult)
      → Closed limit r
      → Finished limit (elim r [
        | returned x s evs ↦ announce_result heard x s evs
        | failed x s ↦ failed x s
        | waiting s ↦ waiting s
        | crashed ↦ crashed
        | spent ↦ spent
      ])
  announced-Finished limit true (returned x s evs) h = record {
    result = x;
    concluded = h.1;
    before = s.out;
    told = refl;
  }
  announced-Finished limit false (returned x s evs) h = λ e. cc
  announced-Finished limit heard (failed x s) h = h.1
  announced-Finished limit heard (waiting s) h = tt
  announced-Finished limit heard crashed h = absurd h
  announced-Finished limit heard spent h = absurd h

module _ (unique : List MovementIndices → List MovementIndices)
    (same_elements : (l : List MovementIndices) (m : MovementIndices) → (m ∈ unique l) ↔ (m ∈ l))
    (reach : ℕ → Bool) (limit : ℕ) (small : limit < usize_limit) {Uuid Sender : Type 0}
    ⦃e : Eq Uuid⦄ where
  Gathered-Finished :
      (heard : Bool) (evs : Events Uuid Sender)
      (r : Run Uuid Sender (Option (MainThreadMessage Uuid Sender)) (Unit {0}))
      → Gathered r
      → Finished limit (elim r [
        | returned _ s' left ↦
            elim (game_loop unique reach limit (map (λ m. (main m, true)) left ++ evs) s') [
              | returned x s evs' ↦ announce_result heard x s evs'
              | failed x s ↦ failed x s
              | waiting s ↦ waiting s
              | crashed ↦ crashed
              | spent ↦ spent
            ]
        | failed x s' ↦ failed x s'
        | waiting s' ↦ failed ServerError.timed_out s'
        | crashed ↦ crashed
        | spent ↦ spent
      ])
  Gathered-Finished heard evs (returned x s left) h =
      let later : Events Uuid Sender = map (λ m. (main m, true)) left ++ evs in
      announced-Finished limit heard (game_loop unique reach limit later s) (
        game_loop-Closed unique same_elements reach limit small later s
          (Paired-of_Connected s h.0 h.1))
  Gathered-Finished heard evs (failed x s) h = λ same. cc (h.1)
  Gathered-Finished heard evs (waiting s) h = λ same. cc
  Gathered-Finished heard evs crashed h = absurd h
  Gathered-Finished heard evs spent h = absurd h

  -- Let nobody be marked as disconnected, and let every session belong to a player with a client.
  -- Then `run` never panics and never runs out of fuel; when it returns, the last thing sent is
  -- the result of a game that satisfies the invariant; when it fails, it is not for an unknown
  -- player. `unique` keeps the elements of a list and adds none; the limit of turns is below
  -- 2^64.
  pub run-Finished :
      (heard : Bool) (ms : List (Option (MainThreadMessage Uuid Sender))) (evs : Events Uuid Sender)
      (s : Server Uuid Sender)
      → Gathering s
      → Finished limit (run unique reach limit heard ms evs s)
  unfolding run
  run-Finished heard ms evs s h =
      Gathered-Finished heard evs (wait_players_connect count ms s)
        (wait_players_connect-Gathered ms s h)

  Left-Wound :
      (result : Option ServerError)
      → result ≢ some unknown_player
      → (r : Run Uuid Sender (Option ClientMessage) (Unit {0})) → Left r
      → Wound (elim r [
        | returned _ s' left ↦ returned result s' left
        | failed x s' ↦ returned result s' []
        | waiting s' ↦ waiting s'
        | crashed ↦ crashed
        | spent ↦ spent
      ])
  Left-Wound result h (returned x s left) l = h
  Left-Wound result h (failed x s) l = h
  Left-Wound result h (waiting s) l = tt
  Left-Wound result h crashed l = absurd l
  Left-Wound result h spent l = absurd l

  disconnect_players-Left :
      (listening : Bool) (leavers : List (Option ClientMessage)) (s : Server Uuid Sender)
      → Left (disconnect_players listening leavers s)
  unfolding disconnect_players
  disconnect_players-Left true leavers s = await_leavers-Left leavers _
  disconnect_players-Left false leavers s = await_leavers-Left leavers s

  Finished-Wound :
      (listening : Bool) (leavers : List (Option ClientMessage))
      (r : Run Uuid Sender (TurnEvent Uuid Sender × Bool) (Unit {0}))
      → Finished limit r
      → Wound (elim r [
        | returned _ s' _ ↦ close listening leavers none s'
        | failed x s' ↦ close listening leavers (some x) s'
        | waiting s' ↦ waiting s'
        | crashed ↦ crashed
        | spent ↦ spent
      ])
  Finished-Wound listening leavers (returned x s left) h =
      Left-Wound none (λ same. cc) (disconnect_players listening leavers s)
        (disconnect_players-Left listening leavers s)
  Finished-Wound listening leavers (failed x s) h =
      Left-Wound (some x) (λ same. h (cc)) (disconnect_players listening leavers s)
        (disconnect_players-Left listening leavers s)
  Finished-Wound listening leavers (waiting s) h = tt
  Finished-Wound listening leavers crashed h = absurd h
  Finished-Wound listening leavers spent h = absurd h

  -- Whatever messages reach a new server, in any order, and whichever of its sends fail,
  -- `try_run` never panics, never runs into undefined behaviour and never runs out of fuel: it
  -- returns, or waits for a message. What it returns is never the error about a player that it
  -- does not know. `unique` keeps the elements of a list and adds none; the limit of turns is
  -- below 2^64.
  pub try_run-Wound :
      (heard listening : Bool) (ms : List (Option (MainThreadMessage Uuid Sender)))
      (evs : Events Uuid Sender) (leavers : List (Option ClientMessage))
      → Wound (try_run unique reach limit heard listening ms evs leavers new_server)
  unfolding try_run
  try_run-Wound heard listening ms evs leavers =
      Finished-Wound listening leavers (run unique reach limit heard ms evs new_server)
        (run-Finished heard ms evs new_server (record { nobody_gone = refl; sessions_live = tt }))
