-- ===== src/Server/Seats.antt =====
-- `wait_players_connect`: which player has a session.
use sternhamla_server.Prelude.{
  arith, ℕ, ◌+◌, ◌≤◌, ◌≡◌, ◌∙◌, ap, refl, inl, inr, Bool, true, false, Option, none, some, List, [],
  ◌∷◌, ◌∈◌, ltb, Eq, ◌==◌, Bool-cases, Option-cases,
}
use sternhamla_server.Player.{Player, player1, player2, player_eq}
use sternhamla_server.Server.{
  insert_session, one_if, contains_key, get, insert, MainThreadMessage, client_connected,
  client_reconnected, client_reconnected_handle, request_free_player, Server, new_server, Run,
  returned, failed, waiting, crashed, spent, PerPlayer, len,
}
use sternhamla_server.Server.SessionMap.{Unlisted, insert_session-Unlisted, remove_session-Unlisted}
use sternhamla_server.Server.Connect.{connect_step, wait_players_connect}

-- How many sessions stand for a player.
abbrev pub held : {Uuid : Type 0} → Player → List (Uuid × Player) → ℕ
held p [] = 0
held p ((u, q) ∷ l) = one_if (q == p) + held p l

pub few : (b : Bool) → one_if b ≤ 1
few true = omega arith
few false = omega arith

module _ {Uuid Sender : Type 0} where
  -- A player has one session if it has a client, and else none.
  unfoldable pub Each : Server Uuid Sender → Type 0
  Each s = (p : Player) → held p s.sessions ≡ one_if (contains_key s.clients_tx p)

  joined :
      (m : PerPlayer Sender) (l : List (Uuid × Player)) (p q : Player) (u : Uuid) (tx : Sender)
      → get m p ≡ none
      → held q l ≡ one_if (contains_key m q)
      → held q ((u, p) ∷ l) ≡ one_if (contains_key (insert m p tx) q)
  joined m l player1 player1 u tx vacant h = ap (λ n. 1 + n) (rw vacant at h)
  joined m l player1 player2 u tx vacant h = omega arith
  joined m l player2 player1 u tx vacant h = omega arith
  joined m l player2 player2 u tx vacant h = ap (λ n. 1 + n) (rw vacant at h)

new_server-Each : (Uuid Sender : Type 0) → Each (new_server {Uuid = Uuid} {Sender = Sender})
unfolding Each
new_server-Each Uuid Sender player1 = refl
new_server-Each Uuid Sender player2 = refl

module _ {Uuid : Type 0} where
  -- No identifier comes twice.
  abbrev pub Distinct : List Uuid → Type 0
  Distinct [] = Unit
  Distinct (u ∷ us) = (¬ (u ∈ us)) × Distinct us

module _ {Uuid Sender : Type 0} where
  -- The session identifiers of the clients that connect.
  abbrev pub new_ids : List (Option (MainThreadMessage Uuid Sender)) → List Uuid
  new_ids [] = []
  new_ids (none ∷ ms) = new_ids ms
  new_ids (some (client_connected p u tx) ∷ ms) = u ∷ new_ids ms
  new_ids (some (client_reconnected p tx) ∷ ms) = new_ids ms
  new_ids (some (client_reconnected_handle u) ∷ ms) = new_ids ms
  new_ids (some request_free_player ∷ ms) = new_ids ms

module _ {Uuid Sender : Type 0} ⦃e : Eq Uuid⦄ where
  -- Each player has the sessions that it should, and the clients to come bring new identifiers.
  record Ready (s : Server Uuid Sender) (us : List Uuid) : Type 0 where
    each : Each s
    fresh : (u : Uuid) → u ∈ us → Unlisted u s.sessions
    distinct : Distinct us

  connected-Each :
      (s : Server Uuid Sender) (p : Player) (u : Uuid) (tx : Sender)
      → get s.clients_tx p ≡ none
      → Unlisted u s.sessions
      → Each s
      → (q : Player)
      → held q (insert_session u p s.sessions) ≡ one_if (contains_key (insert s.clients_tx p tx) q)
  unfolding insert_session Each
  connected-Each s p u tx vacant new h q =
      ap (λ l. held q ((u, p) ∷ l)) (remove_session-Unlisted u s.sessions new)
      ∙ joined s.clients_tx s.sessions p q u tx vacant (h q)

  connect_step-Ready :
      (s : Server Uuid Sender) (m : MainThreadMessage Uuid Sender)
      (ms : List (Option (MainThreadMessage Uuid Sender)))
      → Ready s (new_ids (some m ∷ ms))
      → Ready (connect_step s m) (new_ids ms)
  unfolding connect_step Each
  connect_step-Ready s (client_connected p u tx) ms h = elim (Option-cases (get s.clients_tx p)) [
    | inl vacant ↦
        rw (connect_step, vacant)
          (record {
            each = connected-Each s p u tx vacant (h.fresh u (inl refl)) h.each;
            fresh = λ v m.
                insert_session-Unlisted u v p s.sessions (λ same. h.distinct.0 (rw same m))
                  (h.fresh v (inr m));
            distinct = h.distinct.1;
          })
    | inr (old, taken) ↦
        rw (connect_step, taken)
          (record { each = h.each; fresh = λ v m. h.fresh v (inr m); distinct = h.distinct.1 })
  ]
  connect_step-Ready s (client_reconnected p tx) ms h = h
  connect_step-Ready s (client_reconnected_handle u) ms h = record {
    each = h.each;
    fresh = h.fresh;
    distinct = h.distinct;
  }
  connect_step-Ready s request_free_player ms h = record {
    each = h.each;
    fresh = h.fresh;
    distinct = h.distinct;
  }

  unfoldable pub EachAtEnd :
      Run Uuid Sender (Option (MainThreadMessage Uuid Sender)) (Unit {0}) → Type 0
  EachAtEnd (returned _ s left) = Each s
  EachAtEnd (failed x s) = Each s
  EachAtEnd (waiting s) = Each s
  EachAtEnd crashed = ⊥
  EachAtEnd spent = ⊥

  wait_players_connect-EachAtEnd :
      (n : ℕ) (ms : List (Option (MainThreadMessage Uuid Sender))) (s : Server Uuid Sender)
      → Ready s (new_ids ms)
      → EachAtEnd (wait_players_connect n ms s)
  unfolding wait_players_connect EachAtEnd
  wait_players_connect-EachAtEnd n [] s h = elim (Bool-cases (ltb (len s.clients_tx) n)) [
    | inl few ↦ rw few h.each
    | inr enough ↦ rw enough h.each
  ]
  wait_players_connect-EachAtEnd n (none ∷ ms) s h = elim (Bool-cases (ltb (len s.clients_tx) n)) [
    | inl few ↦ rw few h.each
    | inr enough ↦ rw enough h.each
  ]
  wait_players_connect-EachAtEnd n (some m ∷ ms) s h =
      elim (Bool-cases (ltb (len s.clients_tx) n)) [
        | inl few ↦
            rw few
              (wait_players_connect-EachAtEnd n ms (connect_step s m) (connect_step-Ready s m ms h))
        | inr enough ↦ rw enough h.each
      ]

  pub connecting-EachAtEnd :
      (n : ℕ) (ms : List (Option (MainThreadMessage Uuid Sender)))
      → Distinct (new_ids ms)
      → EachAtEnd (wait_players_connect n ms new_server)
  connecting-EachAtEnd n ms distinct =
      wait_players_connect-EachAtEnd n ms new_server
        (record { each = new_server-Each Uuid Sender; fresh = λ u m. tt; distinct = distinct })
