-- ===== src/Server/Connect.antt =====
-- src/server/mod.rs, `wait_players_connect` and `disconnect_players`.
use sternhamla_server.Prelude.{
  ℕ, Bool, true, false, Option, none, some, List, [], ◌∷◌, Eq, ltb, if◌then◌else◌,
}
use sternhamla_server.Messages.{ServerBroadcast, ClientRequest, ClientMessage}
use sternhamla_server.Server.{
  MainThreadMessage, client_connected, client_reconnected, client_reconnected_handle,
  request_free_player, Server, Run, returned, failed, waiting, main_closed, clients_closed, get,
  insert, remove, len, emit, answered, announced, free_player, session_player, insert_session,
}

module _ {Uuid Sender : Type 0} ⦃e : Eq Uuid⦄ where
  -- The branches of the loop of `wait_players_connect`.
  unfoldable pub connect_step :
      Server Uuid Sender → MainThreadMessage Uuid Sender → Server Uuid Sender
  unfolding free_player session_player insert_session
  connect_step s (client_connected player uuid tx) = elim (get s.clients_tx player) [
    | none ↦ record s {
      clients_tx = insert s.clients_tx player tx;
      sessions = insert_session uuid player s.sessions;
    }
    | some _ ↦ s
  ]
  connect_step s (client_reconnected player tx) = s
  connect_step s (client_reconnected_handle uuid) =
      emit s (answered (session_player uuid s.sessions))
  connect_step s request_free_player = emit s (answered (free_player s))

  -- `none` is the closed channel.
  unfoldable pub wait_players_connect :
      ℕ
      → List (Option (MainThreadMessage Uuid Sender))
      → Server Uuid Sender
      → Run Uuid Sender (Option (MainThreadMessage Uuid Sender)) (Unit {0})
  unfolding connect_step
  wait_players_connect n [] s = if ltb (len s.clients_tx) n then waiting s else returned tt s []
  wait_players_connect n (none ∷ ms) s =
      if ltb (len s.clients_tx) n then failed main_closed s else returned tt s (none ∷ ms)
  wait_players_connect n (some m ∷ ms) s =
      let rest = wait_players_connect n ms (connect_step s m) in
      if ltb (len s.clients_tx) n then rest else returned tt s (some m ∷ ms)

  -- The branches of the loop of `disconnect_players`.
  unfoldable pub leave_step : Server Uuid Sender → ClientMessage → Server Uuid Sender
  leave_step s m = elim m.request [
    | ClientRequest.disconnect ↦ record s { clients_tx = remove s.clients_tx m.player }
    | ClientRequest.choice _ ↦ s
  ]

  unfoldable pub await_leavers :
      List (Option ClientMessage)
      → Server Uuid Sender
      → Run Uuid Sender (Option ClientMessage) (Unit {0})
  unfolding leave_step
  await_leavers [] s = if ltb 0 (len s.clients_tx) then waiting s else returned tt s []
  await_leavers (none ∷ ms) s =
      if ltb 0 (len s.clients_tx) then failed clients_closed s else returned tt s (none ∷ ms)
  await_leavers (some m ∷ ms) s =
      let rest = await_leavers ms (leave_step s m) in
      if ltb 0 (len s.clients_tx) then rest else returned tt s (some m ∷ ms)

  -- The result of the broadcast is dropped: with no receiver nothing is sent.
  unfoldable pub disconnect_players :
      Bool
      → List (Option ClientMessage)
      → Server Uuid Sender
      → Run Uuid Sender (Option ClientMessage) (Unit {0})
  unfolding await_leavers
  disconnect_players true ms s = await_leavers ms (emit s (announced ServerBroadcast.disconnect))
  disconnect_players false ms s = await_leavers ms s
