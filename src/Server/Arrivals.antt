-- ===== src/Server/Arrivals.antt =====
-- src/server/mod.rs, `wait_players_connect`: the players that come.
use sternhamla_server.Prelude.{
  ◌≡◌, ◌⊎◌, inl, inr, refl, ap, true, false, ltb, some, List, [], ◌∷◌, map, Eq, Bool-cases,
  Option-cases,
}
use sternhamla_server.Player.{Player, player1, player2, count}
use sternhamla_server.Server.{
  contains_key, is_some, len, MainThreadMessage, client_connected, client_reconnected,
  client_reconnected_handle, request_free_player, Server, Run, returned, failed, waiting, crashed,
  spent,
}
use sternhamla_server.Server.Connect.{connect_step, wait_players_connect}

-- The loop has returned.
abbrev pub HasReturned : {Uuid Sender Ev A : Type 0} → Run Uuid Sender Ev A → Type 0
HasReturned (returned a s left) = Unit
HasReturned (failed x s) = ⊥
HasReturned (waiting s) = ⊥
HasReturned crashed = ⊥
HasReturned spent = ⊥

module _ {Uuid Sender : Type 0} where
  full :
      (s : Server Uuid Sender)
      → ((p : Player) → contains_key s.clients_tx p ≡ true)
      → ltb (len s.clients_tx) count ≡ false
  unfolding count
  full s h = rw (h player1, h player2) refl

  -- A message connects the player.
  abbrev pub Connects : Player → MainThreadMessage Uuid Sender → Type 0
  Connects p m = (u : Uuid) × (tx : Sender) × (m ≡ client_connected p u tx)

  abbrev pub Comes : Player → List (MainThreadMessage Uuid Sender) → Type 0
  Comes p [] = ⊥
  Comes p (m ∷ ms) = Connects p m ⊎ Comes p ms

module _ {Uuid Sender : Type 0} ⦃e : Eq Uuid⦄ where
  -- A message takes no client away, and one that connects a player leaves it with a client.
  connect_step-keeps :
      (s : Server Uuid Sender) (m : MainThreadMessage Uuid Sender) (p : Player)
      → contains_key s.clients_tx p ≡ true
      → contains_key (connect_step s m).clients_tx p ≡ true
  unfolding connect_step
  connect_step-keeps s (client_connected player1 u tx) player1 h =
      elim (Option-cases s.clients_tx.first) [
        | inl free ↦ rw (connect_step, free) refl
        | inr (old, taken) ↦ rw (connect_step, taken) h
      ]
  connect_step-keeps s (client_connected player2 u tx) player2 h =
      elim (Option-cases s.clients_tx.second) [
        | inl free ↦ rw (connect_step, free) refl
        | inr (old, taken) ↦ rw (connect_step, taken) h
      ]
  connect_step-keeps s (client_connected player1 u tx) player2 h =
      elim (Option-cases s.clients_tx.first) [
        | inl free ↦ rw (connect_step, free) h
        | inr (old, taken) ↦ rw (connect_step, taken) h
      ]
  connect_step-keeps s (client_connected player2 u tx) player1 h =
      elim (Option-cases s.clients_tx.second) [
        | inl free ↦ rw (connect_step, free) h
        | inr (old, taken) ↦ rw (connect_step, taken) h
      ]
  connect_step-keeps s (client_reconnected q tx) p h = h
  connect_step-keeps s (client_reconnected_handle u) p h = h
  connect_step-keeps s request_free_player p h = h

  connect_step-connects :
      (s : Server Uuid Sender) (u : Uuid) (tx : Sender) (p : Player)
      → contains_key (connect_step s (client_connected p u tx)).clients_tx p ≡ true
  unfolding connect_step
  connect_step-connects s u tx player1 = elim (Option-cases s.clients_tx.first) [
    | inl free ↦ rw (connect_step, free) refl
    | inr (old, taken) ↦ rw (connect_step, taken) (ap is_some taken)
  ]
  connect_step-connects s u tx player2 = elim (Option-cases s.clients_tx.second) [
    | inl free ↦ rw (connect_step, free) refl
    | inr (old, taken) ↦ rw (connect_step, taken) (ap is_some taken)
  ]

  abbrev Arrives : Server Uuid Sender → List (MainThreadMessage Uuid Sender) → Type 0
  Arrives s ms = (p : Player) → (contains_key s.clients_tx p ≡ true) ⊎ Comes p ms

  arrives :
      (s : Server Uuid Sender) (m : MainThreadMessage Uuid Sender)
      (ms : List (MainThreadMessage Uuid Sender))
      → Arrives s (m ∷ ms)
      → Arrives (connect_step s m) ms
  arrives s m ms h p = elim (h p) [
    | inl here ↦ inl (connect_step-keeps s m p here)
    | inr comes ↦ elim comes [
      | inl (u, tx, now) ↦ inl (rw now (connect_step-connects s u tx p))
      | inr later ↦ inr later
    ]
  ]

  wait-returns :
      (ms : List (MainThreadMessage Uuid Sender)) (s : Server Uuid Sender)
      → Arrives s ms
      → HasReturned (wait_players_connect count (map some ms) s)
  unfolding wait_players_connect
  wait-returns [] s h =
      rw (full s (λ p. elim (h p) [ inl here ↦ here | inr comes ↦ absurd comes ])) tt
  wait-returns (m ∷ ms) s h = elim (Bool-cases (ltb (len s.clients_tx) count)) [
    | inl few ↦ rw few (wait-returns ms (connect_step s m) (arrives s m ms h))
    | inr enough ↦ rw enough tt
  ]

  -- If the messages of the main thread connect player 1 and connect player 2, in any order and
  -- with any messages between, the wait for both players returns.
  pub wait_players_connect-returns :
      (ms : List (MainThreadMessage Uuid Sender)) (s : Server Uuid Sender)
      → Comes player1 ms
      → Comes player2 ms
      → HasReturned (wait_players_connect count (map some ms) s)
  wait_players_connect-returns ms s h1 h2 = wait-returns ms s both
    where
      both : Arrives s ms
      both player1 = inr h1
      both player2 = inr h2
