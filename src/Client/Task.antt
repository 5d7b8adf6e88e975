-- ===== src/Client/Task.antt =====
-- `run` of a client task: what it asks of the server, whatever it receives.
use sternhamla_server.Prelude.{
  ◌≡◌, ◌≢◌, refl, Bool, true, false, some, none, List, [], ◌∷◌, ◌++◌, map, All, All-append,
}
use sternhamla_server.Player.{Player}
use sternhamla_server.Messages.{
  ServerMessage, ServerBroadcast, ClientRequest, RemoteOutMessage, RemoteInMessage,
}
use sternhamla_server.Client.{
  ClientError, Outbox, Received, from_server, from_broadcast, broadcast_lagged, broadcast_ended,
  from_remote, remote_error, remote_ended, Next, continue, break, bail, crash, Ending, finished,
  crashed, failed, send_remote_message, handle_remote_message, handle_server_broadcast,
  handle_server_message, or_bail, or_continue, select, say_goodbye, run,
}
use sternhamla_server.Client.Relative.{turned_ends}
use sternhamla_server.Client.Views.{EndsInside, try_map-turned, translate_broadcast-turned}

module _ {Uuid : Type 0} where
  -- The indices in the message lie on the square.
  abbrev pub OnSquare : Received Uuid → Type 0
  OnSquare (from_server none) = Unit
  OnSquare (from_server (some (ServerMessage.turn movements))) = All EndsInside movements
  OnSquare (from_broadcast (ServerBroadcast.movement p m scores)) = EndsInside m
  OnSquare (from_broadcast ServerBroadcast.disconnect) = Unit
  OnSquare (from_broadcast (ServerBroadcast.game_finished r)) = Unit
  OnSquare (broadcast_lagged n) = Unit
  OnSquare broadcast_ended = Unit
  OnSquare (from_remote m) = Unit
  OnSquare remote_error = Unit
  OnSquare remote_ended = Unit

  -- Every request is in the name of the player.
  abbrev pub Own : Player → Outbox Uuid → Type 0
  Own self o = All (λ m. m.player ≡ self) o.server

  Behaves : Player → Next Uuid → Type 0
  Behaves self (continue o) = Own self o
  Behaves self (break o) = Own self o
  Behaves self (bail e) = Unit
  Behaves self crash = ⊥

  send_remote_message-Behaves :
      (sent : Bool) (self : Player) (m : RemoteOutMessage Uuid) (o : Outbox Uuid)
      → Own self o
      → Behaves self (or_bail (send_remote_message sent m o))
  unfolding Behaves
  send_remote_message-Behaves true self m o h = h
  send_remote_message-Behaves false self m o h = tt

  send_request-Own :
      (self : Player) (r : ClientRequest) (o : Outbox Uuid)
      → Own self o
      → Own self (record o { server = o.server ++ record { player = self; request = r } ∷ [] })
  send_request-Own self r o h =
      All-append (λ m. m.player ≡ self) o.server (record { player = self; request = r } ∷ []) h
        (refl, tt)

  remote-Behaves :
      (sent : Bool) (self : Player) (m : RemoteInMessage Uuid) (o : Outbox Uuid)
      → Own self o
      → Behaves self (or_continue o (handle_remote_message sent self m o))
  unfolding handle_remote_message Behaves
  remote-Behaves true self (RemoteInMessage.choice n) o h =
      send_request-Own self (ClientRequest.choice n) o h
  remote-Behaves false self (RemoteInMessage.choice n) o h = h
  remote-Behaves sent self RemoteInMessage.hello o h = h
  remote-Behaves sent self (RemoteInMessage.reconnect u) o h = h

  select-Behaves :
      (sent : Bool) (self : Player) (r : Received Uuid) (o : Outbox Uuid)
      → OnSquare r
      → Own self o
      → Behaves self (select sent self r o)
  unfolding select handle_server_message handle_server_broadcast Behaves
  select-Behaves sent self (from_server none) o i h = tt
  select-Behaves sent self (from_server (some (ServerMessage.turn movements))) o i h =
      rw (try_map-turned ClientError self movements i) (
        send_remote_message-Behaves sent self
          (RemoteOutMessage.turn (map (turned_ends self) movements)) o h)
  select-Behaves sent self (from_broadcast (ServerBroadcast.movement p m scores)) o i h =
      rw (translate_broadcast-turned {Uuid = Uuid} ClientError self p m scores i)
        (send_remote_message-Behaves sent self _ o h)
  select-Behaves sent self (from_broadcast ServerBroadcast.disconnect) o i h =
      send_remote_message-Behaves sent self _ o h
  select-Behaves sent self (from_broadcast (ServerBroadcast.game_finished r)) o i h =
      send_remote_message-Behaves sent self _ o h
  select-Behaves sent self (broadcast_lagged n) o i h = h
  select-Behaves sent self broadcast_ended o i h = tt
  select-Behaves sent self (from_remote m) o i h = remote-Behaves sent self m o h
  select-Behaves sent self remote_error o i h = h
  select-Behaves sent self remote_ended o i h = h

  goodbye-Own :
      (sent : Bool) (self : Player) (o : Outbox Uuid)
      → Own self o
      → Own self (say_goodbye sent self o)
  goodbye-Own true self o h = send_request-Own self ClientRequest.disconnect o h
  goodbye-Own false self o h = h

  -- If every index that the server sends lies on the 17 * 17 square, and every request in the
  -- outbox is in the name of the player, then whatever the client task receives and whichever
  -- sends fail, it does not panic, and every request that it sends to the server is in the name
  -- of its player.
  pub run-Own :
      (self : Player) (rs : List (Received Uuid × Bool)) (o : Outbox Uuid)
      → All (λ entry. OnSquare entry.0) rs
      → Own self o
      → Own self (run self rs o).0 × ((run self rs o).1 ≢ crashed)
  unfolding run Behaves
  run-Own self [] o i h = (h, λ e. cc)
  run-Own self ((r, sent) ∷ rs) o i h =
      then (select sent self r o) (select-Behaves sent self r o i.0 h)
        (λ o' h'. run-Own self rs o' i.1 h')
    where
      then :
          (n : Next Uuid)
          → Behaves self n
          → ((o' : Outbox Uuid)
              → Own self o'
              → Own self (run self rs o').0 × ((run self rs o').1 ≢ crashed))
          → let result : Outbox Uuid × Ending = elim n [
            | continue o' ↦ run self rs o'
            | break o' ↦ (say_goodbye sent self o', finished)
            | bail e ↦ (o, failed e)
            | crash ↦ (o, crashed)
          ] in
            Own self result.0 × (result.1 ≢ crashed)
      then (continue o') b rest = rest o' b
      then (break o') b rest = (goodbye-Own sent self o' b, λ e. cc)
      then (bail e) b rest = (h, λ e'. cc)
      then crash b rest = absurd b
