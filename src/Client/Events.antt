-- ===== src/Client/Events.antt =====
-- `select` of a client task: which events end it, and what each asks of the server.
use sternhamla_server.Prelude.{
  ◌⊎◌, inl, inr, try_map, ◌≡◌, refl, sym, ◌∙◌, Bool, true, false, some, none, List, [], ◌∷◌, ◌++◌,
  Exec, ok, err, panic, undefined, stuck, ◌>>=◌, append-nil,
}
use sternhamla_server.Player.{Player}
use sternhamla_server.Movement.{MovementIndices}
use sternhamla_server.Messages.{
  ServerBroadcast, ServerMessage, ClientRequest, ClientMessage, RemoteOutMessage, RemoteInMessage,
}
use sternhamla_server.Client.Errorless.{
  Errorless, relative_movement-Errorless, try_map-Errorless, translate_broadcast-Errorless,
}
use sternhamla_server.Client.{
  translate_broadcast, relative_movement, send_failed, server_closed, broadcast_closed, ClientError,
  Outbox, Received, from_server, from_broadcast, broadcast_lagged, broadcast_ended, from_remote,
  remote_error, remote_ended, Next, continue, break, bail, crash, Ending, finished, crashed, failed,
  send_remote_message, handle_remote_message, handle_server_broadcast, handle_server_message,
  or_bail, select,
}

module _ {Uuid : Type 0} where
  -- What an event makes the task ask of the server.
  abbrev pub forward : Player → Received Uuid × Bool → List ClientMessage
  forward self (from_remote (RemoteInMessage.choice n), true) =
      record { player = self; request = ClientRequest.choice n } ∷ []
  forward self _ = []

  -- The ways in which this event can end the task; most events cannot.
  abbrev pub EndsIn : Received Uuid × Bool → Ending → Type 0
  EndsIn (from_server none, sent) x = x ≡ failed server_closed
  EndsIn (from_server (some m), true) x = x ≡ crashed
  EndsIn (from_server (some m), false) x = (x ≡ failed send_failed) ⊎ (x ≡ crashed)
  EndsIn (from_broadcast m, true) x = x ≡ crashed
  EndsIn (from_broadcast m, false) x = (x ≡ failed send_failed) ⊎ (x ≡ crashed)
  EndsIn (broadcast_lagged n, sent) x = ⊥
  EndsIn (broadcast_ended, sent) x = x ≡ failed broadcast_closed
  EndsIn (from_remote m, sent) x = ⊥
  EndsIn (remote_error, sent) x = ⊥
  EndsIn (remote_ended, sent) x = x ≡ finished

  -- The event does not end the task.
  abbrev pub Passes : Received Uuid × Bool → Type 0
  Passes (from_server none, sent) = ⊥
  Passes (from_server (some m), sent) = sent ≡ true
  Passes (from_broadcast m, sent) = sent ≡ true
  Passes (broadcast_ended, sent) = ⊥
  Passes (remote_ended, sent) = ⊥
  Passes _ = Unit

  -- What an event does to the task.
  unfoldable pub Steps : Player → Received Uuid × Bool → Outbox Uuid → Next Uuid → Type 0
  Steps self r o (continue o') = Passes r × (o'.server ≡ o.server ++ forward self r)
  Steps self r o (break o') = EndsIn r finished × (o' ≡ o)
  Steps self r o (bail x) = EndsIn r (failed x)
  Steps self r o crash = EndsIn r crashed

  -- A message to the remote client asks nothing of the server; it fails if it is not sent.
  Quiet : Bool → Outbox Uuid → Exec ClientError (Outbox Uuid) → Type 0
  Quiet sent o (ok o') = (sent ≡ true) × (o'.server ≡ o.server)
  Quiet sent o (err x) = (sent ≡ false) × (x ≡ send_failed)
  Quiet sent o panic = Unit
  Quiet sent o undefined = Unit
  Quiet sent o stuck = Unit

  send-Quiet :
      (sent : Bool) (m : RemoteOutMessage Uuid) (o : Outbox Uuid)
      → Quiet sent o (send_remote_message sent m o)
  unfolding Quiet
  send-Quiet true m o = (refl, refl)
  send-Quiet false m o = (refl, refl)

  Quiet-bind :
      {A : Type 0} (sent : Bool) (o : Outbox Uuid) (r : Exec ClientError A)
      (f : A → Exec ClientError (Outbox Uuid))
      → Errorless r
      → ((a : A) → Quiet sent o (f a))
      → Quiet sent o (r >>= f)
  unfolding Quiet
  Quiet-bind sent o (ok a) f e h = h a
  Quiet-bind sent o (err x) f e h = absurd e
  Quiet-bind sent o panic f e h = tt
  Quiet-bind sent o undefined f e h = tt
  Quiet-bind sent o stuck f e h = tt

  Quiet-Steps :
      (self : Player) (r : Received Uuid) (sent : Bool) (o : Outbox Uuid)
      (x : Exec ClientError (Outbox Uuid))
      → forward self (r, sent) ≡ []
      → (sent ≡ true → Passes (r, sent))
      → (sent ≡ false → EndsIn (r, sent) (failed send_failed))
      → EndsIn (r, sent) crashed
      → Quiet sent o x
      → Steps self (r, sent) o (or_bail x)
  unfolding Quiet Steps
  Quiet-Steps self r sent o (ok o') e pass fail crashes q =
      (pass q.0, rw e (q.1 ∙ sym (append-nil o.server)))
  Quiet-Steps self r sent o (err x) e pass fail crashes q = rw q.1 (fail q.0)
  Quiet-Steps self r sent o panic e pass fail crashes q = crashes
  Quiet-Steps self r sent o undefined e pass fail crashes q = crashes
  Quiet-Steps self r sent o stuck e pass fail crashes q = crashes

  turn-Quiet :
      (self : Player) (sent : Bool) (movements : List MovementIndices) (o : Outbox Uuid)
      → Quiet sent o (handle_server_message sent self (ServerMessage.turn movements) o)
  unfolding handle_server_message
  turn-Quiet self sent movements o =
      Quiet-bind sent o (try_map (relative_movement self) movements) _
        (try_map-Errorless (relative_movement self) movements (relative_movement-Errorless self))
        (λ m. send-Quiet sent _ o)

  broadcast-Quiet :
      (self : Player) (sent : Bool) (m : ServerBroadcast) (o : Outbox Uuid)
      → Quiet sent o (handle_server_broadcast sent self m o)
  unfolding handle_server_broadcast
  broadcast-Quiet self sent m o =
      Quiet-bind sent o (translate_broadcast self m) _ (translate_broadcast-Errorless Uuid self m)
        (λ out. send-Quiet sent out o)

  pub select-Steps :
      (self : Player) (r : Received Uuid) (sent : Bool) (o : Outbox Uuid)
      → Steps self (r, sent) o (select sent self r o)
  unfolding select handle_remote_message Steps
  select-Steps self (from_server none) sent o = refl
  select-Steps self (from_server (some (ServerMessage.turn l))) true o =
      Quiet-Steps self (from_server (some (ServerMessage.turn l))) true o _ refl (λ e. e)
        (λ e. absurd (cc (e))) refl (turn-Quiet self true l o)
  select-Steps self (from_server (some (ServerMessage.turn l))) false o =
      Quiet-Steps self (from_server (some (ServerMessage.turn l))) false o _ refl (λ e. e)
        (λ e. inl refl) (inr refl) (turn-Quiet self false l o)
  select-Steps self (from_broadcast m) true o =
      Quiet-Steps self (from_broadcast m) true o _ refl (λ e. e) (λ e. absurd (cc (e))) refl
        (broadcast-Quiet self true m o)
  select-Steps self (from_broadcast m) false o =
      Quiet-Steps self (from_broadcast m) false o _ refl (λ e. e) (λ e. inl refl) (inr refl)
        (broadcast-Quiet self false m o)
  select-Steps self (broadcast_lagged n) sent o = (tt, sym (append-nil o.server))
  select-Steps self broadcast_ended sent o = refl
  select-Steps self (from_remote (RemoteInMessage.choice n)) true o = (tt, refl)
  select-Steps self (from_remote (RemoteInMessage.choice n)) false o =
      (tt, sym (append-nil o.server))
  select-Steps self (from_remote RemoteInMessage.hello) sent o = (tt, sym (append-nil o.server))
  select-Steps self (from_remote (RemoteInMessage.reconnect u)) sent o =
      (tt, sym (append-nil o.server))
  select-Steps self remote_error sent o = (tt, sym (append-nil o.server))
  select-Steps self remote_ended sent o = (refl, refl)
