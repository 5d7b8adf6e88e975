-- ===== src/Server/Connected.antt =====
-- `wait_players_connect`: who is there when the game starts.
use sternhamla_server.Prelude.{
  ◌≡◌, inl, inr, refl, true, false, ltb, Option, some, none, List, [], ◌∷◌, All, Eq, Bool-cases,
  Option-cases,
}
use sternhamla_server.Player.{Player, player1, player2, count}
use sternhamla_server.Server.{
  PerPlayer, no_player, get, insert, contains_key, is_some, len, MainThreadMessage,
  client_connected, client_reconnected, client_reconnected_handle, request_free_player,
  insert_session, Server, main_closed, Run, returned, failed, waiting, crashed, spent,
}
use sternhamla_server.Server.SessionMap.{remove_session-All}
use sternhamla_server.Server.Connect.{connect_step, wait_players_connect}

module _ {Sender : Type 0} where
  inserted :
      (m : PerPlayer Sender) (p : Player) (tx : Sender) → contains_key (insert m p tx) p ≡ true
  inserted m player1 tx = refl
  inserted m player2 tx = refl

module _ {Uuid Sender : Type 0} where
  -- Nobody is marked as gone, and a session belongs to a player with a client.
  pub record Gathering (s : Server Uuid Sender) : Type 0 where
    pub nobody_gone : s.disconnected ≡ no_player
    pub sessions_live : All (λ entry. contains_key s.clients_tx entry.1 ≡ true) s.sessions

  -- Both players are there.
  abbrev pub Connected : Server Uuid Sender → Type 0
  Connected s = (p : Player) → contains_key s.clients_tx p ≡ true

  len-Connected : (s : Server Uuid Sender) → ltb (len s.clients_tx) count ≡ false → Connected s
  unfolding count
  len-Connected s h player1 = one s.clients_tx.first s.clients_tx.second h
    where
      one :
          (a c : Option Sender)
          → ltb (len (record { first = a; second = c })) count ≡ false
          → is_some a ≡ true
      one (some a) c h = refl
      one none none h = absurd (cc)
      one none (some c) h = absurd (cc)
  len-Connected s h player2 = two s.clients_tx.first s.clients_tx.second h
    where
      two :
          (a c : Option Sender)
          → ltb (len (record { first = a; second = c })) count ≡ false
          → is_some c ≡ true
      two a (some c) h = refl
      two none none h = absurd (cc)
      two (some a) none h = absurd (cc)

  -- How the connection phase may end.
  abbrev pub Gathered : Run Uuid Sender (Option (MainThreadMessage Uuid Sender)) (Unit {0}) → Type 0
  Gathered (returned _ s left) = Gathering s × Connected s
  Gathered (failed x s) = Gathering s × (x ≡ main_closed)
  Gathered (waiting s) = Gathering s × (ltb (len s.clients_tx) count ≡ true)
  Gathered crashed = ⊥
  Gathered spent = ⊥

  still_live :
      (m : PerPlayer Sender) (p : Player) (tx : Sender) (l : List (Uuid × Player))
      → All (λ entry. contains_key m entry.1 ≡ true) l
      → All (λ entry. contains_key (insert m p tx) entry.1 ≡ true) l
  still_live m p tx [] h = tt
  still_live m p tx ((u, q) ∷ l) h = (kept p q h.0, still_live m p tx l h.1)
    where
      kept : (p q : Player) → contains_key m q ≡ true → contains_key (insert m p tx) q ≡ true
      kept player1 player1 h = refl
      kept player1 player2 h = h
      kept player2 player1 h = h
      kept player2 player2 h = refl

module _ {Uuid Sender : Type 0} ⦃e : Eq Uuid⦄ where
  connect_step-Gathering :
      (s : Server Uuid Sender) (m : MainThreadMessage Uuid Sender)
      → Gathering s
      → Gathering (connect_step s m)
  unfolding connect_step insert_session
  connect_step-Gathering s (client_connected p u tx) h = elim (Option-cases (get s.clients_tx p)) [
    | inl free ↦
        rw (connect_step, free)
          (record {
            nobody_gone = h.nobody_gone;
            sessions_live = (
              inserted s.clients_tx p tx,
              remove_session-All (λ entry. contains_key (insert s.clients_tx p tx) entry.1 ≡ true) u
                  s.sessions (still_live s.clients_tx p tx s.sessions h.sessions_live),
            );
          })
    | inr (old, taken) ↦ rw (connect_step, taken) h
  ]
  connect_step-Gathering s (client_reconnected p tx) h = h
  connect_step-Gathering s (client_reconnected_handle u) h = record {
    nobody_gone = h.nobody_gone;
    sessions_live = h.sessions_live;
  }
  connect_step-Gathering s request_free_player h = record {
    nobody_gone = h.nobody_gone;
    sessions_live = h.sessions_live;
  }

  -- Let nobody be marked as disconnected, and let every session belong to a player with a client.
  -- However the wait for both players ends, this still holds; if it returns, both players have a
  -- client; if it fails, the channel of the main thread was closed; if it still waits, a player
  -- is missing.
  pub wait_players_connect-Gathered :
      (ms : List (Option (MainThreadMessage Uuid Sender))) (s : Server Uuid Sender)
      → Gathering s
      → Gathered (wait_players_connect count ms s)
  unfolding wait_players_connect
  wait_players_connect-Gathered [] s h = elim (Bool-cases (ltb (len s.clients_tx) count)) [
    | inl few ↦ rw few (h, few)
    | inr enough ↦ rw enough (h, len-Connected s enough)
  ]
  wait_players_connect-Gathered (none ∷ ms) s h = elim (Bool-cases (ltb (len s.clients_tx) count)) [
    | inl few ↦ rw few (h, refl)
    | inr enough ↦ rw enough (h, len-Connected s enough)
  ]
  wait_players_connect-Gathered (some m ∷ ms) s h =
      elim (Bool-cases (ltb (len s.clients_tx) count)) [
        | inl few ↦
            rw few
              (wait_players_connect-Gathered ms (connect_step s m) (connect_step-Gathering s m h))
        | inr enough ↦ rw enough (h, len-Connected s enough)
      ]
