-- ===== src/Server/Sessions.antt =====
-- `run`: the sessions, from a new server to the end of a game.
use sternhamla_server.Prelude.{
  ℕ, ◌≤◌, ◌<◌, ◌≡◌, ◌↔◌, ◌∙◌, ap, refl, Bool, true, false, Option, List, ◌++◌, ◌∈◌, map, Eq,
}
use sternhamla_server.Player.{Player, player_eq, count}
use sternhamla_server.Movement.{MovementIndices}
use sternhamla_server.Game.{GameResult, usize_limit}
use sternhamla_server.Server.{
  one_if, contains_key, MainThreadMessage, Server, ServerError, new_server, Run, returned, failed,
  waiting, crashed, spent,
}
use sternhamla_server.Server.Connect.{wait_players_connect}
use sternhamla_server.Server.Connected.{
  Connected, Gathering, wait_players_connect-Gathered, Gathered,
}
use sternhamla_server.Server.Turn.{TurnEvent, main}
use sternhamla_server.Server.Kept.{Keeps}
use sternhamla_server.Server.Kept.Games.{game_loop-Keeps}
use sternhamla_server.Server.Seats.{
  held, few, Each, EachAtEnd, Distinct, new_ids, connecting-EachAtEnd,
}
use sternhamla_server.Server.Loop.{Events, announce_result, game_loop, run}
use sternhamla_server.Server.Whole.{Finished, run-Finished}

module _ {Uuid Sender : Type 0} where
  -- Each player has exactly one session.
  abbrev pub Seated : Server Uuid Sender → Type 0
  Seated s = (p : Player) → held p s.sessions ≡ 1

  -- `run` ends with one session for each player; only where it fails, they may be fewer.
  abbrev pub SeatedAtEnd : Run Uuid Sender (TurnEvent Uuid Sender × Bool) (Unit {0}) → Type 0
  SeatedAtEnd (returned _ s left) = Seated s
  SeatedAtEnd (failed x s) = (p : Player) → held p s.sessions ≤ 1
  SeatedAtEnd (waiting s) = Seated s
  SeatedAtEnd crashed = ⊥
  SeatedAtEnd spent = ⊥

  Each-few : (s : Server Uuid Sender) → Each s → (p : Player) → held p s.sessions ≤ 1
  unfolding Each
  Each-few s h p = rw (h p) (few (contains_key s.clients_tx p))

  Each-Seated : (s : Server Uuid Sender) → Each s → Connected s → Seated s
  unfolding Each
  Each-Seated s h c p = h p ∙ ap one_if (c p)

  kept-Seated : (s t : Server Uuid Sender) → Seated s → t.sessions ≡ s.sessions → Seated t
  kept-Seated s t h same p = ap (held p) same ∙ h p

  kept-few :
      (s t : Server Uuid Sender)
      → Seated s
      → t.sessions ≡ s.sessions
      → (p : Player) → held p t.sessions ≤ 1
  kept-few s t h same p = rw (kept-Seated s t h same p) (few true)

module _ {Uuid Sender : Type 0} ⦃e : Eq Uuid⦄ (limit : ℕ) where
  announced-Seated :
      (heard : Bool) (s : Server Uuid Sender)
      → Seated s
      → (r : Run Uuid Sender (TurnEvent Uuid Sender × Bool) GameResult) → Keeps s.sessions r
      → let x : Run Uuid Sender (TurnEvent Uuid Sender × Bool) (Unit {0}) = (elim r [
        | returned x s'' evs' ↦ announce_result heard x s'' evs'
        | failed x s'' ↦ failed x s''
        | waiting s'' ↦ waiting s''
        | crashed ↦ crashed
        | spent ↦ spent
      ]) in
        Finished limit x → SeatedAtEnd x
  unfolding Keeps
  announced-Seated true s h (returned x t evs) kept f = kept-Seated s t h kept
  announced-Seated false s h (returned x t evs) kept f = kept-few s t h kept
  announced-Seated heard s h (failed x t) kept f = kept-few s t h kept
  announced-Seated heard s h (waiting t) kept f = kept-Seated s t h kept
  announced-Seated heard s h crashed kept f = f
  announced-Seated heard s h spent kept f = f

module _ (unique : List MovementIndices → List MovementIndices)
    (same_elements : (l : List MovementIndices) (m : MovementIndices) → (m ∈ unique l) ↔ (m ∈ l))
    (reach : ℕ → Bool) (limit : ℕ) (small : limit < usize_limit) {Uuid Sender : Type 0}
    ⦃e : Eq Uuid⦄ where
  Gathered-Seated :
      (heard : Bool) (evs : Events Uuid Sender)
      (r : Run Uuid Sender (Option (MainThreadMessage Uuid Sender)) (Unit {0}))
      → EachAtEnd r
      → Gathered r
      → let x : Run Uuid Sender (TurnEvent Uuid Sender × Bool) (Unit {0}) = (elim r [
        | returned _ s' left ↦
            elim (game_loop unique reach limit (map (λ m. (main m, true)) left ++ evs) s') [
              | returned x s evs' ↦ announce_result heard x s evs'
              | failed x s ↦ failed x s
              | waiting s ↦ waiting s
              | crashed ↦ crashed
              | spent ↦ spent
            ]
        | failed x s' ↦ failed x s'
        | waiting s' ↦ failed ServerError.timed_out s'
        | crashed ↦ crashed
        | spent ↦ spent
      ]) in
        Finished limit x → SeatedAtEnd x
  unfolding EachAtEnd
  Gathered-Seated heard evs (returned x s left) each g f =
      let later : Events Uuid Sender = map (λ m. (main m, true)) left ++ evs in
      announced-Seated limit heard s (Each-Seated s each (g.1))
        (game_loop unique reach limit later s)
        (game_loop-Keeps s.sessions unique reach limit later s refl) f
  Gathered-Seated heard evs (failed x s) each g f = Each-few s each
  Gathered-Seated heard evs (waiting s) each g f = Each-few s each
  Gathered-Seated heard evs crashed each g f = absurd each
  Gathered-Seated heard evs spent each g f = absurd each

  -- Let `run` start with a new server, whatever it receives and whichever of its sends fail,
  -- where no two clients that connect bring the same session identifier. When it returns, and
  -- when it waits for a message, each player has exactly one session; when it fails, each has at
  -- most one. It never panics and never runs out of fuel. `unique` keeps the elements of a list
  -- and adds none; the limit of turns is below 2^64.
  pub run-SeatedAtEnd :
      (heard : Bool) (ms : List (Option (MainThreadMessage Uuid Sender))) (evs : Events Uuid Sender)
      → Distinct (new_ids ms)
      → SeatedAtEnd (run unique reach limit heard ms evs new_server)
  unfolding run
  run-SeatedAtEnd heard ms evs distinct =
      Gathered-Seated heard evs (wait_players_connect count ms new_server)
        (connecting-EachAtEnd count ms distinct) (wait_players_connect-Gathered ms new_server start)
        (run-Finished unique same_elements reach limit small heard ms evs new_server start)
    where
      start : Gathering (new_server {Uuid = Uuid} {Sender = Sender})
      start = record { nobody_gone = refl; sessions_live = tt }
