-- ===== src/Timing.antt =====
-- src/sternhalma/timing.rs: the timer that the game loop logs with. Instants, floating point numbers
-- and the rate of a number of turns between two instants are parameters.
use sternhamla_server.Prelude.{ℕ, ◌%◌, Bool, Option, none, some, ◌==◌, nat_eq, if◌then◌else◌}

pub record GameTimer (Instant Float : Type 0) : Type 0 where
  pub timer : Instant
  pub turns_rate : Float

-- `usize::is_multiple_of`.
abbrev pub is_multiple_of : ℕ → ℕ → Bool
is_multiple_of n m = if m == 0 then n == 0 else n % m == 0

module _ {Instant Float : Type 0} where
  -- `GameTimer::new`, at an instant.
  abbrev pub new_timer : Float → Instant → GameTimer Instant Float
  new_timer nan now = record { timer = now; turns_rate = nan }

  module _ (n_turns : ℕ) (rate : ℕ → Instant → Instant → Float) where
    -- The turns of the game, and the instants at which the clock is read.
    unfoldable pub update :
        ℕ → Instant → Instant → GameTimer Instant Float → GameTimer Instant Float
    update turns elapsed now t =
        if is_multiple_of turns n_turns
        then record { timer = now; turns_rate = rate n_turns t.timer elapsed }
        else t

    -- The timer afterwards, and the one that `func` is called with, if it is.
    unfoldable pub on_trigger :
        ℕ
        → Instant
        → Instant
        → GameTimer Instant Float
        → GameTimer Instant Float × Option (GameTimer Instant Float)
    on_trigger turns elapsed now t =
        if is_multiple_of turns n_turns
        then (
          record { timer = now; turns_rate = rate n_turns t.timer elapsed },
          some (record t { turns_rate = rate n_turns t.timer elapsed }),
        )
        else (t, none)
