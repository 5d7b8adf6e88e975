-- ===== src/Server/Progress.antt =====
-- src/server/mod.rs, `handle_turn`: how many messages a turn takes.
use sternhamla_server.Prelude.{ℕ, suc, ◌<◌, Bool, List, [], ◌∷◌, length, Exec, ok, Eq, arith}
use sternhamla_server.Player.{Player}
use sternhamla_server.Movement.{MovementIndices}
use sternhamla_server.Game.{Game, GameStatus}
use sternhamla_server.Server.{Server, Run, returned, failed, waiting, crashed, spent}
use sternhamla_server.Server.Turn.{
  TurnEvent, Turn, again, played, bail, crash, turn_step, turn_loop, open_turn, handle_turn,
  available_moves,
}
use sternhamla_server.Server.Loop.{Events}

module _ {Uuid Sender A : Type 0} where
  -- A run that returns has received something.
  abbrev pub Shorter : ℕ → Run Uuid Sender (TurnEvent Uuid Sender × Bool) A → Type 0
  Shorter n (returned r s left) = length left < n
  Shorter n (failed x s) = Unit
  Shorter n (waiting s) = Unit
  Shorter n crashed = Unit
  Shorter n spent = Unit

  Shorter-mono :
      (n : ℕ) (r : Run Uuid Sender (TurnEvent Uuid Sender × Bool) A)
      → Shorter n r
      → Shorter (suc n) r
  Shorter-mono n (returned r s left) h = omega (arith, h)
  Shorter-mono n (failed x s) h = tt
  Shorter-mono n (waiting s) h = tt
  Shorter-mono n crashed h = tt
  Shorter-mono n spent h = tt

module _ {Uuid Sender : Type 0} ⦃e : Eq Uuid⦄ where
  then-Shorter :
      (evs : Events Uuid Sender)
      (k : Server Uuid Sender → Run Uuid Sender (TurnEvent Uuid Sender × Bool) (Game × GameStatus))
      → ((s : Server Uuid Sender) → Shorter (length evs) (k s))
      → (t : Turn Uuid Sender)
      → Shorter (suc (length evs)) (elim t [
        | again s' ↦ k s'
        | played g' status s' ↦ returned (g', status) s' evs
        | bail x s' ↦ failed x s'
        | crash ↦ crashed
      ])
  then-Shorter evs k next (again s) = Shorter-mono (length evs) (k s) (next s)
  then-Shorter evs k next (played g' status s) = omega arith
  then-Shorter evs k next (bail x s) = tt
  then-Shorter evs k next crash = tt

  turn_loop-Shorter :
      (movements : List MovementIndices) (current : Player) (g : Game) (evs : Events Uuid Sender)
      (s : Server Uuid Sender)
      → Shorter (length evs) (turn_loop movements current g evs s)
  unfolding turn_loop
  turn_loop-Shorter movements current g [] s = tt
  turn_loop-Shorter movements current g (ev ∷ evs) s =
      then-Shorter evs (turn_loop movements current g evs)
        (λ s'. turn_loop-Shorter movements current g evs s') (turn_step movements current g ev s)

  opened-Shorter :
      (movements : List MovementIndices) (current : Player) (g : Game) (evs : Events Uuid Sender)
      (t : Turn Uuid Sender)
      → Shorter (length evs) (elim t [
        | again s' ↦ turn_loop movements current g evs s'
        | played g' status s' ↦ crashed
        | bail x s' ↦ failed x s'
        | crash ↦ crashed
      ])
  opened-Shorter movements current g evs (again s) = turn_loop-Shorter movements current g evs s
  opened-Shorter movements current g evs (played g' status s) = tt
  opened-Shorter movements current g evs (bail x s) = tt
  opened-Shorter movements current g evs crash = tt

  offered-Shorter :
      (current : Player) (g : Game) (sent : Bool) (evs : Events Uuid Sender)
      (s : Server Uuid Sender) (r : Exec (Unit {0}) (List MovementIndices))
      → Shorter (length evs) (elim r [
        | ok movements ↦ elim (open_turn sent movements current s) [
          | again s' ↦ turn_loop movements current g evs s'
          | played g' status s' ↦ crashed
          | bail x s' ↦ failed x s'
          | crash ↦ crashed
        ]
        | _ ↦ crashed
      ])
  offered-Shorter current g sent evs s (ok movements) =
      opened-Shorter movements current g evs (open_turn sent movements current s)
  offered-Shorter current g sent evs s (Exec.err x) = tt
  offered-Shorter current g sent evs s Exec.panic = tt
  offered-Shorter current g sent evs s Exec.undefined = tt
  offered-Shorter current g sent evs s Exec.stuck = tt

  pub handle_turn-Shorter :
      (unique : List MovementIndices → List MovementIndices) (sent : Bool) (current : Player)
      (g : Game) (evs : Events Uuid Sender) (s : Server Uuid Sender)
      → Shorter (length evs) (handle_turn unique sent current g evs s)
  unfolding handle_turn
  handle_turn-Shorter unique sent current g evs s =
      offered-Shorter current g sent evs s (available_moves unique g)
