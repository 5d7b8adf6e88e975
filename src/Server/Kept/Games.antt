-- ===== src/Server/Kept/Games.antt =====
-- `handle_turn` and `game_loop`: the sessions stay as they are.
use sternhamla_server.Prelude.{
  ℕ, zero, suc, ◌≡◌, inl, inr, Bool, List, leb, Eq, Bool-cases, Exec, ok, length,
}
use sternhamla_server.Player.{Player, player_eq}
use sternhamla_server.Movement.{MovementIndices}
use sternhamla_server.Game.{Game, GameStatus, GameResult, playing, finished, new_game}
use sternhamla_server.Server.{Server, Run, returned, failed, waiting, crashed, spent}
use sternhamla_server.Server.Turn.{
  TurnEvent, again, played, bail, crash, turn_loop, open_turn, handle_turn, available_moves,
}
use sternhamla_server.Server.Kept.{Keeps, opened-Keeps, open_turn-Kept}
use sternhamla_server.Server.Loop.{Events, game_round, rounds, game_loop}

module _ {Uuid Sender : Type 0} ⦃e : Eq Uuid⦄ (l : List (Uuid × Player))
    (unique : List MovementIndices → List MovementIndices) where
  handle_turn-Keeps :
      (sent : Bool) (current : Player) (g : Game) (evs : Events Uuid Sender)
      (s : Server Uuid Sender)
      → s.sessions ≡ l
      → Keeps l (handle_turn unique sent current g evs s)
  unfolding handle_turn Keeps
  handle_turn-Keeps sent current g evs s h = offered (available_moves {E = Unit {0}} unique g)
    where
      offered :
          (x : Exec (Unit {0}) (List MovementIndices))
          → Keeps l (elim x [
            | ok movements ↦ elim (open_turn sent movements current s) [
              | again s' ↦ turn_loop movements current g evs s'
              | played g' status s' ↦ crashed
              | bail x s' ↦ failed x s'
              | crash ↦ crashed
            ]
            | _ ↦ crashed
          ])
      offered (ok movements) =
          opened-Keeps l movements current g evs (open_turn sent movements current s)
            (open_turn-Kept l movements current g sent s h)
      offered (Exec.err x) = tt
      offered Exec.panic = tt
      offered Exec.undefined = tt
      offered Exec.stuck = tt

  module _ (reach : ℕ → Bool) (limit : ℕ) where
    after-Keeps :
        (later : Game
          → Events Uuid Sender
          → Server Uuid Sender
          → Run Uuid Sender (TurnEvent Uuid Sender × Bool) GameResult)
        → ((g : Game) (evs : Events Uuid Sender) (s : Server Uuid Sender)
            → s.sessions ≡ l
            → Keeps l (later g evs s))
        → (r : Run Uuid Sender (TurnEvent Uuid Sender × Bool) (Game × GameStatus)) → Keeps l r
        → Keeps l (elim r [
          | returned (g', status) s' evs' ↦ later g' evs' s'
          | failed x s' ↦ failed x s'
          | waiting s' ↦ waiting s'
          | crashed ↦ crashed
          | spent ↦ spent
        ])
    unfolding Keeps
    after-Keeps later next (returned (g', status) s' evs') h = next g' evs' s' h
    after-Keeps later next (failed x s') h = h
    after-Keeps later next (waiting s') h = h
    after-Keeps later next crashed h = tt
    after-Keeps later next spent h = tt

    game_round-Keeps :
        (later : Game
          → Events Uuid Sender
          → Server Uuid Sender
          → Run Uuid Sender (TurnEvent Uuid Sender × Bool) GameResult)
        → ((g : Game) (evs : Events Uuid Sender) (s : Server Uuid Sender)
            → s.sessions ≡ l
            → Keeps l (later g evs s))
        → (status : GameStatus) (g : Game) (evs : Events Uuid Sender) (s : Server Uuid Sender)
        → s.sessions ≡ l
        → Keeps l (game_round unique reach limit later status g evs s)
    unfolding game_round Keeps
    game_round-Keeps later next (finished winner turns scores) g evs s h = h
    game_round-Keeps later next (playing player turns scores) g evs s h =
        elim (Bool-cases (leb limit turns)) [
          | inl over ↦ rw over h
          | inr on ↦ rw on (
              after-Keeps later next (handle_turn unique (reach turns) player g evs s)
                (handle_turn-Keeps (reach turns) player g evs s h))
        ]

    rounds-Keeps :
        (fuel : ℕ) (g : Game) (evs : Events Uuid Sender) (s : Server Uuid Sender)
        → s.sessions ≡ l
        → Keeps l (rounds unique reach limit fuel g evs s)
    unfolding rounds Keeps
    rounds-Keeps zero g evs s h = tt
    rounds-Keeps (suc fuel) g evs s h =
        game_round-Keeps (λ g' evs' s'. rounds unique reach limit fuel g' evs' s')
          (λ g' evs' s' h'. rounds-Keeps fuel g' evs' s' h') g.status g evs s h

    pub game_loop-Keeps :
        (evs : Events Uuid Sender) (s : Server Uuid Sender)
        → s.sessions ≡ l
        → Keeps l (game_loop unique reach limit evs s)
    unfolding game_loop Keeps
    game_loop-Keeps evs s h = started (new_game {E = Unit {0}})
      where
        started :
            (x : Exec (Unit {0}) Game)
            → Keeps l (elim x [
              | ok g ↦ rounds unique reach limit (suc (length evs)) g evs s
              | _ ↦ crashed
            ])
        started (ok g) = rounds-Keeps (suc (length evs)) g evs s h
        started (Exec.err x) = tt
        started Exec.panic = tt
        started Exec.undefined = tt
        started Exec.stuck = tt
