-- ===== src/Server/Leavers.antt =====
-- src/server/mod.rs, the loop of `disconnect_players`: the players that go.
use sternhamla_server.Prelude.{
  ◌≡◌, ◌⊎◌, inl, inr, refl, true, false, ltb, Option, some, none, List, [], ◌∷◌, map, Eq,
  Bool-cases,
}
use sternhamla_server.Player.{Player, player1, player2}
use sternhamla_server.Messages.{ClientRequest, ClientMessage}
use sternhamla_server.Server.{
  PerPlayer, remove, contains_key, is_some, len, Server, Run, clients_closed, returned, failed,
  waiting, crashed, spent,
}
use sternhamla_server.Server.Connect.{leave_step, await_leavers}
use sternhamla_server.Server.Arrivals.{HasReturned}

-- The message of a player that leaves.
abbrev pub Leaves : Player → List ClientMessage → Type 0
Leaves p [] = ⊥
Leaves p (m ∷ ms) = (m ≡ record { player = p; request = ClientRequest.disconnect }) ⊎ Leaves p ms

module _ {Sender : Type 0} where
  keeps_out :
      (m : PerPlayer Sender) (q p : Player)
      → contains_key m p ≡ false
      → contains_key (remove m q) p ≡ false
  keeps_out m player1 player1 h = refl
  keeps_out m player1 player2 h = h
  keeps_out m player2 player1 h = h
  keeps_out m player2 player2 h = refl

  removed : (m : PerPlayer Sender) (p : Player) → contains_key (remove m p) p ≡ false
  removed m player1 = refl
  removed m player2 = refl

module _ {Uuid Sender : Type 0} where
  abbrev pub Empty : Server Uuid Sender → Type 0
  Empty s = (p : Player) → contains_key s.clients_tx p ≡ false

  len-Empty : (s : Server Uuid Sender) → ltb 0 (len s.clients_tx) ≡ false → Empty s
  len-Empty s h player1 = one s.clients_tx.first s.clients_tx.second h
    where
      one :
          (a c : Option Sender)
          → ltb 0 (len (record { first = a; second = c })) ≡ false
          → is_some a ≡ false
      one none c h = refl
      one (some a) none h = absurd (cc)
      one (some a) (some c) h = absurd (cc)
  len-Empty s h player2 = two s.clients_tx.first s.clients_tx.second h
    where
      two :
          (a c : Option Sender)
          → ltb 0 (len (record { first = a; second = c })) ≡ false
          → is_some c ≡ false
      two a none h = refl
      two none (some c) h = absurd (cc)
      two (some a) (some c) h = absurd (cc)

  -- How the wait for the players to leave may end.
  abbrev pub Left : Run Uuid Sender (Option ClientMessage) (Unit {0}) → Type 0
  Left (returned _ s left) = Empty s
  Left (failed x s) = x ≡ clients_closed
  Left (waiting s) = ltb 0 (len s.clients_tx) ≡ true
  Left crashed = ⊥
  Left spent = ⊥

  Departs : Server Uuid Sender → List ClientMessage → Type 0
  Departs s ms = (p : Player) → (contains_key s.clients_tx p ≡ false) ⊎ Leaves p ms

  no_client :
      (s : Server Uuid Sender)
      → ((p : Player) → contains_key s.clients_tx p ≡ false)
      → ltb 0 (len s.clients_tx) ≡ false
  no_client s h = rw (h player1, h player2) refl

module _ {Uuid Sender : Type 0} ⦃e : Eq Uuid⦄ where
  leave_step-keeps :
      (s : Server Uuid Sender) (q : Player) (r : ClientRequest) (p : Player)
      → contains_key s.clients_tx p ≡ false
      → contains_key (leave_step s (record { player = q; request = r })).clients_tx p ≡ false
  unfolding leave_step
  leave_step-keeps s q ClientRequest.disconnect p h = keeps_out s.clients_tx q p h
  leave_step-keeps s q (ClientRequest.choice n) p h = h

  leave_step-leaves :
      (s : Server Uuid Sender) (p : Player)
      → contains_key
          (leave_step s (record { player = p; request = ClientRequest.disconnect })).clients_tx
          p
        ≡ false
  unfolding leave_step
  leave_step-leaves s p = removed s.clients_tx p

  departs :
      (s : Server Uuid Sender) (m : ClientMessage) (ms : List ClientMessage)
      → Departs s (m ∷ ms)
      → Departs (leave_step s m) ms
  unfolding Departs
  departs s m ms h p = elim (h p) [
    | inl gone ↦ inl (leave_step-keeps s m.player m.request p gone)
    | inr leaves ↦ elim leaves [
      | inl now ↦ inl (rw now (leave_step-leaves s p))
      | inr later ↦ inr later
    ]
  ]

  pub await_leavers-Left :
      (ms : List (Option ClientMessage)) (s : Server Uuid Sender) → Left (await_leavers ms s)
  unfolding await_leavers
  await_leavers-Left [] s = elim (Bool-cases (ltb 0 (len s.clients_tx))) [
    | inl some_left ↦ rw some_left some_left
    | inr none_left ↦ rw none_left (len-Empty s none_left)
  ]
  await_leavers-Left (none ∷ ms) s = elim (Bool-cases (ltb 0 (len s.clients_tx))) [
    | inl some_left ↦ rw some_left refl
    | inr none_left ↦ rw none_left (len-Empty s none_left)
  ]
  await_leavers-Left (some m ∷ ms) s = elim (Bool-cases (ltb 0 (len s.clients_tx))) [
    | inl some_left ↦ rw some_left (await_leavers-Left ms (leave_step s m))
    | inr none_left ↦ rw none_left (len-Empty s none_left)
  ]

  departed :
      (ms : List ClientMessage) (s : Server Uuid Sender)
      → Departs s ms
      → HasReturned (await_leavers (map some ms) s)
  unfolding await_leavers Departs
  departed [] s h =
      rw (no_client s (λ p. elim (h p) [ inl gone ↦ gone | inr leaves ↦ absurd leaves ])) tt
  departed (m ∷ ms) s h = elim (Bool-cases (ltb 0 (len s.clients_tx))) [
    | inl some_left ↦ rw some_left (departed ms (leave_step s m) (departs s m ms h))
    | inr none_left ↦ rw none_left tt
  ]

  -- If each player either has no client or sends a request to disconnect among the messages, the
  -- wait for the players to leave returns.
  pub await_leavers-returns :
      (ms : List ClientMessage) (s : Server Uuid Sender)
      → ((p : Player) → (contains_key s.clients_tx p ≡ false) ⊎ Leaves p ms)
      → HasReturned (await_leavers (map some ms) s)
  unfolding Departs
  await_leavers-returns ms s h = departed ms s h
