-- ===== src/Server.antt =====
-- src/server/mod.rs: the state of the server task, what it receives and what it sends.
pub mod Connect
pub mod SessionMap
pub mod Turn
pub mod Moves
pub mod Steps
pub mod Turns
pub mod Connected
pub mod Arrivals
pub mod Leavers
pub mod Whole
pub mod Progress
pub mod Rounds
pub mod Loop
pub mod Choosing
pub mod Choices
pub mod Kept
pub mod Seats
pub mod Sessions
use package.sternhamla_server.Prelude.{
  ℕ, suc, ◌+◌, Bool, true, false, Option, none, some, List, [], ◌∷◌, ◌++◌, find, Eq, ◌==◌, not,
  if◌then◌else◌,
}
use package.sternhamla_server.Player.{Player, player1, player2}
use package.sternhamla_server.Messages.{ServerMessage, ServerBroadcast, ClientMessage}

-- A map keyed by players: what each of the two has, if anything.
pub record PerPlayer (V : Type 0) : Type 0 where
  pub first : Option V
  pub second : Option V

abbrev pub one_if : Bool → ℕ
one_if true = 1
one_if false = 0

module _ {V : Type 0} where
  abbrev pub no_player : PerPlayer V
  no_player = record { first = none; second = none }

  abbrev pub get : PerPlayer V → Player → Option V
  get m player1 = m.first
  get m player2 = m.second

  abbrev pub insert : PerPlayer V → Player → V → PerPlayer V
  insert m player1 v = record m { first = some v }
  insert m player2 v = record m { second = some v }

  abbrev pub remove : PerPlayer V → Player → PerPlayer V
  remove m player1 = record m { first = none }
  remove m player2 = record m { second = none }

  abbrev pub is_some : Option V → Bool
  is_some none = false
  is_some (some v) = true

  abbrev pub contains_key : PerPlayer V → Player → Bool
  contains_key m p = is_some (get m p)

  abbrev pub len : PerPlayer V → ℕ
  len m = one_if (is_some m.first) + one_if (is_some m.second)

-- Messages from the main thread. The answer to the last two goes to the channel that they carry.
pub data MainThreadMessage (Uuid Sender : Type 0) : Type 0 where
  client_connected : Player → Uuid → Sender → MainThreadMessage Uuid Sender
  client_reconnected : Player → Sender → MainThreadMessage Uuid Sender
  client_reconnected_handle : Uuid → MainThreadMessage Uuid Sender
  request_free_player : MainThreadMessage Uuid Sender

pub data ServerError : Type 0 where
  main_closed clients_closed unknown_player turn_not_sent not_broadcast timed_out : ServerError

-- What the server sends: an answer to the main thread, a message to one client or to all.
pub data Effect (Sender : Type 0) : Type 0 where
  answered : Option Player → Effect Sender
  told : Sender → ServerMessage → Effect Sender
  announced : ServerBroadcast → Effect Sender

-- `out` is everything sent so far, oldest first; the other fields are those of the source.
pub record Server (Uuid Sender : Type 0) : Type 0 where
  pub clients_tx : PerPlayer Sender
  pub sessions : List (Uuid × Player)
  pub disconnected : PerPlayer (Unit {0})
  pub out : List (Effect Sender)

-- How a loop over received messages ends: it returns with a value and what is left to receive,
-- fails, or waits for a message that has not come. `spent`: the fuel ran out.
pub data Run (Uuid Sender Ev A : Type 0) : Type 0 where
  returned : A → Server Uuid Sender → List Ev → Run Uuid Sender Ev A
  failed : ServerError → Server Uuid Sender → Run Uuid Sender Ev A
  waiting : Server Uuid Sender → Run Uuid Sender Ev A
  crashed spent : Run Uuid Sender Ev A

module _ {Uuid Sender : Type 0} where
  abbrev pub new_server : Server Uuid Sender
  new_server = record { clients_tx = no_player; sessions = []; disconnected = no_player; out = [] }

  abbrev pub emit : Server Uuid Sender → Effect Sender → Server Uuid Sender
  emit s e = record s { out = s.out ++ e ∷ [] }

  -- The first player with no client.
  unfoldable pub free_player : Server Uuid Sender → Option Player
  free_player s =
      if not (contains_key s.clients_tx player1)
      then some player1
      else if not (contains_key s.clients_tx player2)
      then some player2
      else none

module _ {Uuid : Type 0} ⦃e : Eq Uuid⦄ where
  unfoldable pub session_player : Uuid → List (Uuid × Player) → Option Player
  session_player u [] = none
  session_player u ((v, p) ∷ m) = if v == u then some p else session_player u m

  -- `HashMap::remove` and `HashMap::insert` of the sessions: a key has one entry at most.
  unfoldable pub remove_session : Uuid → List (Uuid × Player) → List (Uuid × Player)
  remove_session u [] = []
  remove_session u ((v, p) ∷ m) =
      let rest = remove_session u m in if v == u then rest else (v, p) ∷ rest

  unfoldable pub insert_session : Uuid → Player → List (Uuid × Player) → List (Uuid × Player)
  unfolding remove_session
  insert_session u p m = (u, p) ∷ remove_session u m
