-- ===== src/Handshake/Session.antt =====
-- A handshake together with the server that answers it.
use sternhamla_server.Prelude.{
  ◌≡◌, ◌⊎◌, inl, inr, refl, Bool, true, false, Option, none, some, List, [], ◌∷◌, ◌∈◌, Eq,
  Option-cases,
}
use Prim.Native.String.{String}
use sternhamla_server.Player.{Player, player1, player2}
use sternhamla_server.Messages.{RemoteOutMessage, RemoteInMessage}
use sternhamla_server.Server.{
  PerPlayer, MainThreadMessage, Server, get, insert, free_player, session_player,
}
use sternhamla_server.Server.SessionMap.{session_player-insert}
use sternhamla_server.Server.Connect.{connect_step}
use sternhamla_server.Handshake.{
  Opening, message, broken, closed, Surroundings, Handshaken, open_handshake, handle_handshake,
}

module _ {Uuid : Type 0} where
  silent : (session : Uuid) → ¬ (RemoteOutMessage.welcome session ∈ [])
  silent session m = m

  rejected :
      {reason : String} (session : Uuid)
      → ¬ (RemoteOutMessage.welcome session ∈ (RemoteOutMessage.reject reason ∷ []))
  rejected session (inl same) = cc (same)
  rejected session (inr m) = m

module _ {Uuid Sender : Type 0} where
  -- A task comes with the welcome, and for the player that the server named.
  abbrev pub Sincere : Surroundings Uuid Sender → Handshaken Uuid Sender → Type 0
  Sincere w h =
      ((h.task ≡ none) × ((session : Uuid) → ¬ (RemoteOutMessage.welcome session ∈ h.told)))
      ⊎ ((p : Player) × (session : Uuid) × (h.task ≡ some p)
          × (h.told ≡ RemoteOutMessage.welcome session ∷ [])
          × (w.answer ≡ some (some p)))

  opened :
      (w : Surroundings Uuid Sender) (o : Opening Uuid) (main_open sink_open : Bool)
      (answer : Option (Option Player))
      → w.main_open ≡ main_open
      → w.sink_open ≡ sink_open
      → w.answer ≡ answer
      → Sincere w (open_handshake w o)
  opened w (message RemoteInMessage.hello) false s a em es ea = inl (rw em refl, rw em silent)
  opened w (message RemoteInMessage.hello) true s none em es ea =
      inl (rw (em, ea) refl, rw (em, ea) silent)
  opened w (message RemoteInMessage.hello) true false (some none) em es ea =
      inl (rw (em, ea) refl, rw (em, ea, es) silent)
  opened w (message RemoteInMessage.hello) true true (some none) em es ea =
      inl (rw (em, ea) refl, rw (em, ea, es) rejected)
  opened w (message RemoteInMessage.hello) true false (some (some p)) em es ea =
      inl (rw (em, ea, es) refl, rw (em, ea, es) silent)
  opened w (message RemoteInMessage.hello) true true (some (some p)) em es ea =
      inr (p, w.new_v4, rw (em, ea, es) refl, rw (em, ea, es) refl, ea)
  opened w (message (RemoteInMessage.reconnect v)) false s a em es ea =
      inl (rw em refl, rw em silent)
  opened w (message (RemoteInMessage.reconnect v)) true s none em es ea =
      inl (rw (em, ea) refl, rw (em, ea) silent)
  opened w (message (RemoteInMessage.reconnect v)) true false (some none) em es ea =
      inl (rw (em, ea) refl, rw (em, ea, es) silent)
  opened w (message (RemoteInMessage.reconnect v)) true true (some none) em es ea =
      inl (rw (em, ea) refl, rw (em, ea, es) rejected)
  opened w (message (RemoteInMessage.reconnect v)) true false (some (some p)) em es ea =
      inl (rw (em, ea, es) refl, rw (em, ea, es) silent)
  opened w (message (RemoteInMessage.reconnect v)) true true (some (some p)) em es ea =
      inr (p, v, rw (em, ea, es) refl, rw (em, ea, es) refl, ea)
  opened w (message (RemoteInMessage.choice n)) m s a em es ea = inl (refl, silent)
  opened w broken m s a em es ea = inl (refl, silent)
  opened w closed m s a em es ea = inl (refl, silent)

  -- Whatever a handshake meets, either it spawns no task and sends no welcome, or it spawns the
  -- task of the player that the server named and sends one welcome and nothing else.
  pub handle_handshake-Sincere : (w : Surroundings Uuid Sender) → Sincere w (handle_handshake w)
  unfolding handle_handshake
  handle_handshake-Sincere w = opened w w.first w.main_open w.sink_open w.answer refl refl refl

module _ {Sender : Type 0} where
  pub insert-get :
      (m : PerPlayer Sender) (p : Player) (tx : Sender) → get (insert m p tx) p ≡ some tx
  insert-get m player1 tx = refl
  insert-get m player2 tx = refl

module _ {Uuid Sender : Type 0} ⦃e : Eq Uuid⦄ where
  pub free_player-vacant :
      (s : Server Uuid Sender) (p : Player) → free_player s ≡ some p → get s.clients_tx p ≡ none
  unfolding free_player
  free_player-vacant s p h = elim (Option-cases s.clients_tx.first) [
    | inl none1 ↦ vacant1 none1 p h
    | inr (a, some1) ↦ elim (Option-cases s.clients_tx.second) [
      | inl none2 ↦ vacant2 a some1 none2 p h
      | inr (c, some2) ↦ absurd (cc (rw (some1, some2) at h))
    ]
  ]
    where
      vacant1 :
          s.clients_tx.first ≡ none
          → (p : Player) → free_player s ≡ some p
          → get s.clients_tx p ≡ none
      vacant1 none1 player1 h = none1
      vacant1 none1 player2 h = absurd (cc (rw none1 at h))

      vacant2 :
          (a : Sender)
          → s.clients_tx.first ≡ some a
          → s.clients_tx.second ≡ none
          → (p : Player) → free_player s ≡ some p
          → get s.clients_tx p ≡ none
      vacant2 a some1 none2 player1 h = absurd (cc (rw (some1, none2) at h))
      vacant2 a some1 none2 player2 h = none2

  -- The messages that the server handles in the connection phase.
  abbrev pub serve : Server Uuid Sender → List (MainThreadMessage Uuid Sender) → Server Uuid Sender
  serve s [] = s
  serve s (m ∷ ms) = serve (connect_step s m) ms

  -- A connection that says hello while the server gathers players, with every channel open.
  abbrev pub greeting : Server Uuid Sender → Uuid → Sender → Surroundings Uuid Sender
  greeting s session tx = record {
    first = message RemoteInMessage.hello;
    main_open = true;
    answer = some (free_player s);
    sink_open = true;
    notified = true;
    new_v4 = session;
    server_tx = tx;
  }

  -- Let a connection say hello while the server gathers players, with every channel open, and let
  -- the server name the free player p. Once the server has handled the messages of the handshake,
  -- p has the channel of this connection, and the session identifier that the remote client was
  -- given stands for p.
  pub handle_handshake-session_player :
      (s : Server Uuid Sender) (p : Player) (session : Uuid) (tx : Sender)
      → free_player s ≡ some p
      → let s' : Server Uuid Sender = serve s (handle_handshake (greeting s session tx)).sent in
        (get s'.clients_tx p ≡ some tx) × (session_player session s'.sessions ≡ some p)
  unfolding handle_handshake connect_step
  handle_handshake-session_player s p session tx free =
      rw (free, connect_step, free_player-vacant s p free)
        (insert-get s.clients_tx p tx, session_player-insert session p s.sessions)
