-- ===== src/Client/Views.antt =====
-- What the remote client of a player is told of a turn and of a move.
use sternhamla_server.Prelude.{
  ℕ, zero, suc, ◌≡◌, refl, true, List, [], ◌∷◌, ◌++◌, get_elem?, All, ok, try_map,
}
use mathlib.Core.Option as Options
use mathlib.Core.List.{map}
use sternhamla_server.Player.{Player}
use sternhamla_server.Board.Hex.{Inside}
use sternhamla_server.Movement.{MovementIndices}
use sternhamla_server.Game.{Scores}
use sternhamla_server.Messages.{ServerMessage, ServerBroadcast, RemoteOutMessage}
use sternhamla_server.Client.{
  ClientError, Outbox, relative_player, relative_movement, relative_scores, translate_broadcast,
  handle_server_message,
}
use sternhamla_server.Client.Relative.{turned_ends, relative_movement-turned}

-- Both ends lie on the square.
abbrev pub EndsInside : MovementIndices → Type 0
EndsInside m = Inside m.0 × Inside m.1

pub try_map-turned :
    (E : Type 0) (self : Player) (l : List MovementIndices)
    → All EndsInside l
    → try_map {E = E} (relative_movement self) l ≡ ok (map (turned_ends self) l)
unfolding try_map
try_map-turned E self [] h = refl
try_map-turned E self (m ∷ l) h =
    rw (relative_movement-turned E self m h.0.0 h.0.1, try_map-turned E self l h.1) refl

get_elem?-map :
    {A B : Type 0} (f : A → B) (l : List A) (n : ℕ)
    → get_elem? (map f l) n ≡ Options.map f (get_elem? l n)
get_elem?-map f [] n = refl
get_elem?-map f (x ∷ l) zero = refl
get_elem?-map f (x ∷ l) (suc n) = get_elem?-map f l n

module _ {Uuid : Type 0} where
  handle_server_message-sent :
      (self : Player) (movements : List MovementIndices) (o : Outbox Uuid)
      → All EndsInside movements
      → handle_server_message true self (ServerMessage.turn movements) o
        ≡ ok (record o {
          remote = o.remote ++ RemoteOutMessage.turn (map (turned_ends self) movements) ∷ [];
        })
  unfolding handle_server_message
  handle_server_message-sent self movements o h =
      rw (try_map-turned ClientError self movements h) refl

  -- For a list of moves whose indices lie on the 17 * 17 square, the client task sends a list in
  -- which the n-th entry is the n-th move of the server as the player sees it, and there is one
  -- exactly when the server's list has one: a choice by number means the same move on both sides.
  pub handle_server_message-choices :
      (self : Player) (movements : List MovementIndices) (o : Outbox Uuid)
      → All EndsInside movements
      → (shown : List MovementIndices) × (handle_server_message true self
            (ServerMessage.turn movements)
            o
          ≡ ok (record o { remote = o.remote ++ RemoteOutMessage.turn shown ∷ [] }))
        × ((n : ℕ) → get_elem? shown n ≡ Options.map (turned_ends self) (get_elem? movements n))
  handle_server_message-choices self movements o h = (
    map (turned_ends self) movements,
    handle_server_message-sent self movements o h,
    get_elem?-map (turned_ends self) movements,
  )

  pub translate_broadcast-turned :
      (E : Type 0) (self p : Player) (m : MovementIndices) (scores : Scores)
      → EndsInside m
      → translate_broadcast {Uuid = Uuid} {E = E} self (ServerBroadcast.movement p m scores)
        ≡ ok (
            RemoteOutMessage.movement
              (relative_player self p)
              (turned_ends self m)
              (relative_scores self scores))
  unfolding translate_broadcast
  translate_broadcast-turned E self p m scores h =
      rw (relative_movement-turned E self m h.0 h.1) refl
