-- ===== src/Binary.antt =====
-- src/bin/sternhalma-server.rs, `main`: from the arguments to the end of the server's task.
use Prim.Native.String.{String}
use sternhamla_server.Prelude.{
  ℕ, ◌-◌, Bool, true, Option, none, some, List, ◌||◌, ◌&&◌, Eq, if◌then◌else◌,
}
use sternhamla_server.Movement.{MovementIndices}
use sternhamla_server.Game.{usize_limit}
use sternhamla_server.Messages.{ClientMessage}
use sternhamla_server.Server.{
  MainThreadMessage, Server, ServerError, Run, returned, failed, waiting, crashed, spent, is_some,
  new_server,
}
use sternhamla_server.Server.Loop.{Events, try_run}

pub record Args : Type 0 where
  pub tcp : Option String
  pub ws : Option String
  pub max_turns : Option ℕ
  pub timeout : ℕ

-- `args.max_turns.unwrap_or(usize::MAX)`.
abbrev pub turn_limit : Option ℕ → ℕ
turn_limit none = usize_limit - 1
turn_limit (some n) = n

-- How `main` ends: with the usage, since an address cannot be bound, not yet, after the server's
-- task has ended with this result, or after it has panicked.
pub data Exit (Uuid Sender : Type 0) : Type 0 where
  usage not_bound : Exit Uuid Sender
  serving : Server Uuid Sender → Exit Uuid Sender
  shut_down : Option ServerError → Exit Uuid Sender
  panicked : Exit Uuid Sender

-- `TcpListener::bind` for an address, if there is one: the flag says whether it succeeds.
abbrev pub bind_if_some : Option String → Bool → Bool
bind_if_some none bound = true
bind_if_some (some addr) bound = bound

module _ {Uuid Sender : Type 0} where
  unfoldable pub await_shutdown :
      Run Uuid Sender (Option ClientMessage) (Option ServerError) → Exit Uuid Sender
  await_shutdown (returned result s left) = shut_down result
  await_shutdown (failed x s) = shut_down (some x)
  await_shutdown (waiting s) = serving s
  await_shutdown crashed = panicked
  await_shutdown spent = panicked

module _ (unique : List MovementIndices → List MovementIndices) (reach : ℕ → Bool)
    {Uuid Sender : Type 0} ⦃e : Eq Uuid⦄ where
  -- The server's task has started when the addresses are looked at, but ends with the program.
  unfoldable pub binary_main :
      Args
      → Bool
      → Bool
      → Bool
      → Bool
      → List (Option (MainThreadMessage Uuid Sender))
      → Events Uuid Sender
      → List (Option ClientMessage)
      → Exit Uuid Sender
  unfolding await_shutdown try_run
  binary_main args tcp_bound ws_bound heard listening ms evs leavers =
      if is_some args.tcp || is_some args.ws
      then if bind_if_some args.tcp tcp_bound && bind_if_some args.ws ws_bound
        then await_shutdown (
            try_run unique reach (turn_limit args.max_turns) heard listening ms evs leavers
              new_server)
        else not_bound
      else usage
