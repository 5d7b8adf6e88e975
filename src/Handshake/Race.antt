-- ===== src/Handshake/Race.antt =====
-- Two handshakes at once, while the server gathers players.
use sternhamla_server.Prelude.{◌≡◌, ◌≢◌, refl, ◌∙◌, ap, none, some, [], ◌∷◌, Eq}
use sternhamla_server.Player.{Player}
use sternhamla_server.Messages.{RemoteOutMessage}
use sternhamla_server.Server.{
  client_connected, request_free_player, Server, get, insert, free_player, session_player,
  insert_session,
}
use sternhamla_server.Server.SessionMap.{session_player-insert_session}
use sternhamla_server.Server.Connect.{connect_step}
use sternhamla_server.Handshake.{Handshaken, handle_handshake}
use sternhamla_server.Handshake.Session.{serve, greeting, free_player-vacant, insert-get}

module _ {Uuid Sender : Type 0} where
  -- A handshake that welcomes a client as the player p.
  pub record Welcomes (p : Player) (session : Uuid) (tx : Sender) (h : Handshaken Uuid Sender)
      : Type 0 where
    pub told : h.told ≡ RemoteOutMessage.welcome session ∷ []
    pub sent : h.sent ≡ request_free_player ∷ client_connected p session tx ∷ []
    pub task : h.task ≡ some p

module _ {Uuid Sender : Type 0} ⦃e : Eq Uuid⦄ where
  -- The server once it has answered a hello.
  abbrev pub asked : Server Uuid Sender → Server Uuid Sender
  asked s = connect_step s request_free_player

  greeting-Welcomes :
      (s : Server Uuid Sender) (p : Player) (session : Uuid) (tx : Sender)
      → free_player s ≡ some p
      → Welcomes p session tx (handle_handshake (greeting s session tx))
  unfolding handle_handshake
  greeting-Welcomes s p session tx free = record {
    told = rw free refl;
    sent = rw free refl;
    task = rw free refl;
  }

  asked-free : (s : Server Uuid Sender) → free_player (asked s) ≡ free_player s
  unfolding connect_step free_player
  asked-free s = refl

  -- The server once p has its client.
  joined : Server Uuid Sender → Player → Uuid → Sender → Server Uuid Sender
  joined s p session tx = record s {
    clients_tx = insert s.clients_tx p tx;
    sessions = insert_session session p s.sessions;
  }

  connected-vacant :
      (s : Server Uuid Sender) (p : Player) (session : Uuid) (tx : Sender)
      → get s.clients_tx p ≡ none
      → connect_step s (client_connected p session tx) ≡ joined s p session tx
  unfolding connect_step joined
  connected-vacant s p session tx vacant = rw (connect_step, vacant) refl

  connected-taken :
      (s : Server Uuid Sender) (p : Player) (session : Uuid) (tx tx' : Sender)
      → get s.clients_tx p ≡ some tx
      → connect_step s (client_connected p session tx') ≡ s
  unfolding connect_step
  connected-taken s p session tx tx' taken = rw (connect_step, taken) refl

  served :
      (s : Server Uuid Sender) (p : Player) (first second : Uuid) (tx tx' : Sender)
      → get s.clients_tx p ≡ none
      → serve s (client_connected p first tx ∷ client_connected p second tx' ∷ [])
        ≡ joined s p first tx
  unfolding joined
  served s p first second tx tx' vacant =
      ap (λ s'. connect_step s' (client_connected p second tx'))
        (connected-vacant s p first tx vacant)
      ∙ connected-taken (joined s p first tx) p second tx tx' (insert-get s.clients_tx p tx)

  asked-clients : (s : Server Uuid Sender) → (asked (asked s)).clients_tx ≡ s.clients_tx
  unfolding connect_step
  asked-clients s = refl

  asked-sessions : (s : Server Uuid Sender) → (asked (asked s)).sessions ≡ s.sessions
  unfolding connect_step
  asked-sessions s = refl

  -- Let two connections say hello while the server gathers players, with every channel open, let
  -- both questions reach the server before either handshake reports its client, and let p be the
  -- free player. Then both handshakes welcome their client as p and spawn a task for p; once the
  -- server has handled the four messages, p has the channel of the first, and a session
  -- identifier of the second that was unknown before is unknown still, if the two identifiers
  -- differ.
  pub handle_handshake-asked :
      (s : Server Uuid Sender) (p : Player) (first second : Uuid) (tx tx' : Sender)
      → free_player s ≡ some p
      → first ≢ second
      → session_player second s.sessions ≡ none
      → let s' : Server Uuid Sender = serve s (
          request_free_player
          ∷ request_free_player
          ∷ client_connected p first tx
          ∷ client_connected p second tx'
          ∷ []) in
        Welcomes p first tx (handle_handshake (greeting s first tx))
        × Welcomes p second tx' (handle_handshake (greeting (asked s) second tx'))
        × (get s'.clients_tx p ≡ some tx)
        × (session_player second s'.sessions ≡ none)
  unfolding joined
  handle_handshake-asked s p first second tx tx' free other fresh =
      let after =
        served (asked (asked s)) p first second tx tx'
          (ap (λ m. get m p) (asked-clients s) ∙ free_player-vacant s p free) in
      (
        greeting-Welcomes s p first tx free,
        greeting-Welcomes (asked s) p second tx' (asked-free s ∙ free),
        ap (λ s'. get s'.clients_tx p) after ∙ insert-get (asked (asked s)).clients_tx p tx,
        ap (λ s'. session_player second s'.sessions) after
            ∙ session_player-insert_session first second p (asked (asked s)).sessions other
            ∙ ap (session_player second) (asked-sessions s)
            ∙ fresh,
      )
