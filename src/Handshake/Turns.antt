-- ===== src/Handshake/Turns.antt =====
-- A handshake during a turn, together with `handle_turn`, which answers it.
use sternhamla_server.Prelude.{
  ◌≡◌, ◌≢◌, inl, inr, refl, true, false, some, List, [], ◌∷◌, ◌++◌, map, Eq, ◌==◌, if◌then◌else◌,
  Bool-cases, append_assoc,
}
use sternhamla_server.Player.{Player, player1, player2, player_eq}
use sternhamla_server.Movement.{MovementIndices}
use sternhamla_server.Game.{Game}
use sternhamla_server.Messages.{ServerMessage, RemoteOutMessage, RemoteInMessage}
use sternhamla_server.Server.{
  MainThreadMessage, Server, waiting, emit, answered, told, get, insert, remove, contains_key,
  free_player, session_player,
}
use sternhamla_server.Server.Turn.{main, main_step, reconnect, turn_step, turn_loop}
use sternhamla_server.Server.Loop.{Events}
use sternhamla_server.Handshake.{message, Surroundings, handle_handshake}
use sternhamla_server.Handshake.Session.{greeting, insert-get}

module _ {Uuid Sender : Type 0} ⦃e : Eq Uuid⦄ where
  -- A connection that names its session, with every channel open.
  abbrev pub returning : Server Uuid Sender → Uuid → Sender → Surroundings Uuid Sender
  returning s session tx = record {
    first = message (RemoteInMessage.reconnect session);
    main_open = true;
    answer = some (session_player session s.sessions);
    sink_open = true;
    notified = true;
    new_v4 = session;
    server_tx = tx;
  }

  -- The messages of a handshake, as a turn receives them.
  abbrev pub arriving : List (MainThreadMessage Uuid Sender) → Events Uuid Sender
  arriving ms = map (λ m. (main (some m), true)) ms

  -- The player has this channel and counts as present; the other player and the sessions are as
  -- before; if it is the player's turn, the list of moves is the last thing sent.
  pub record Joined (movements : List MovementIndices) (current p : Player) (tx : Sender)
      (s s' : Server Uuid Sender) : Type 0 where
    pub channel : get s'.clients_tx p ≡ some tx
    pub present : contains_key s'.disconnected p ≡ false
    pub others :
        (q : Player)
        → q ≢ p
        → (get s'.clients_tx q ≡ get s.clients_tx q)
          × (get s'.disconnected q ≡ get s.disconnected q)
    pub sessions : s'.sessions ≡ s.sessions
    pub sent :
        s'.out
        ≡ s.out
          ++ answered (some p)
            ∷ (if p == current then told tx (ServerMessage.turn movements) ∷ [] else [])

  -- A client whose player has left comes back.
  back : Player → Sender → Server Uuid Sender → Server Uuid Sender
  back p tx s = record (emit s (answered (some p))) {
    disconnected = remove s.disconnected p;
    clients_tx = insert s.clients_tx p tx;
  }

  back-others :
      (p q : Player) (tx : Sender) (s : Server Uuid Sender)
      → q ≢ p
      → (get (back p tx s).clients_tx q ≡ get s.clients_tx q)
        × (get (back p tx s).disconnected q ≡ get s.disconnected q)
  unfolding back
  back-others player1 player1 tx s other = absurd (other refl)
  back-others player1 player2 tx s other = (refl, refl)
  back-others player2 player1 tx s other = (refl, refl)
  back-others player2 player2 tx s other = absurd (other refl)

  back-present :
      (p : Player) (tx : Sender) (s : Server Uuid Sender)
      → contains_key (back p tx s).disconnected p ≡ false
  unfolding back
  back-present player1 tx s = refl
  back-present player2 tx s = refl

  -- What the turn does with the two messages of the handshake.
  reconnect-waiting :
      (movements : List MovementIndices) (current p : Player) (tx : Sender) (g : Game)
      (session : Uuid) (s : Server Uuid Sender)
      → session_player session s.sessions ≡ some p
      → contains_key s.disconnected p ≡ true
      → (s' : Server Uuid Sender) × (turn_loop movements current g
            (arriving (
              MainThreadMessage.client_reconnected_handle session
              ∷ MainThreadMessage.client_reconnected p tx
              ∷ []))
            s
          ≡ waiting s')
        × Joined movements current p tx s s'
  unfolding turn_loop turn_step main_step reconnect back
  reconnect-waiting movements current p tx g session s known gone =
      elim (Bool-cases (p == current)) [
        | inl mine ↦ (
          emit (back p tx s) (told tx (ServerMessage.turn movements)),
          rw (turn_loop, known, gone, mine) refl,
          record {
            channel = insert-get s.clients_tx p tx;
            present = back-present p tx s;
            others = λ q other. back-others p q tx s other;
            sessions = refl;
            sent = rw mine (
                append_assoc s.out (answered (some p) ∷ [])
                  (told tx (ServerMessage.turn movements) ∷ []));
          },
        )
        | inr other ↦ (
          back p tx s,
          rw (turn_loop, known, gone, other) refl,
          record {
            channel = insert-get s.clients_tx p tx;
            present = back-present p tx s;
            others = λ q other'. back-others p q tx s other';
            sessions = refl;
            sent = rw other refl;
          },
        )
      ]

  -- During a turn, with every channel open, let a connection name the session of a player that
  -- has left. Then the remote client is welcomed with its session and gets the task of the
  -- player, and once the turn has received the messages of the handshake, the player has the
  -- channel of this connection and counts as present; nothing else of the server changes, except
  -- that it sends the answer and, if it is the player's turn, the list of moves.
  pub handle_handshake-Joined :
      (movements : List MovementIndices) (current p : Player) (tx : Sender) (g : Game)
      (session : Uuid) (s : Server Uuid Sender)
      → session_player session s.sessions ≡ some p
      → contains_key s.disconnected p ≡ true
      → ((handle_handshake (returning s session tx)).told ≡ RemoteOutMessage.welcome session ∷ [])
        × ((handle_handshake (returning s session tx)).task ≡ some p)
        × (s' : Server Uuid Sender) × (turn_loop movements current g
              (arriving (handle_handshake (returning s session tx)).sent)
              s
            ≡ waiting s')
        × Joined movements current p tx s s'
  unfolding handle_handshake
  handle_handshake-Joined movements current p tx g session s known gone =
      let (s', waits, joined) = reconnect-waiting movements current p tx g session s known gone in
      rw known (refl, refl, s', waits, joined)

  -- During a turn, with every channel open, let a connection say hello, and let p be the first
  -- player with no client. Then the remote client is welcomed with a new session and gets the
  -- task of p, but once the turn has received the messages of the handshake, the server has
  -- changed nothing except that it sent the answer: p still has no client, and the session is not
  -- kept.
  pub handle_handshake-waiting :
      (movements : List MovementIndices) (current p : Player) (tx : Sender) (g : Game)
      (session : Uuid) (s : Server Uuid Sender)
      → free_player s ≡ some p
      → ((handle_handshake (greeting s session tx)).told ≡ RemoteOutMessage.welcome session ∷ [])
        × ((handle_handshake (greeting s session tx)).task ≡ some p)
        × (turn_loop movements current g
              (arriving (handle_handshake (greeting s session tx)).sent)
              s
            ≡ waiting (emit s (answered (some p))))
  unfolding handle_handshake turn_loop turn_step main_step
  handle_handshake-waiting movements current p tx g session s free =
      rw free (refl, refl, rw free refl)
