-- ===== src/Server/SessionMap.antt =====
-- The sessions as a map: what `insert_session` does to the entries and to lookups.
use sternhamla_server.Prelude.{
  ◌≡◌, ◌≢◌, ◌⊎◌, refl, ap, inl, inr, true, false, some, List, [], ◌∷◌, All, Eq, ◌==◌, Bool-cases,
}
use sternhamla_server.Player.{Player}
use sternhamla_server.Server.{session_player, remove_session, insert_session}

module _ {Uuid : Type 0} ⦃e : Eq Uuid⦄ where
  pub remove_session-All :
      (P : Uuid × Player → Type 0) (u : Uuid) (l : List (Uuid × Player))
      → All P l
      → All P (remove_session u l)
  unfolding remove_session
  remove_session-All P u [] h = tt
  remove_session-All P u ((v, p) ∷ l) h = elim (Bool-cases (v == u)) [
    | inl same ↦ rw same (remove_session-All P u l h.1)
    | inr other ↦ rw other (h.0, remove_session-All P u l h.1)
  ]

  -- An identifier that no entry has.
  abbrev pub Unlisted : Uuid → List (Uuid × Player) → Type 0
  Unlisted u l = All (λ entry. (entry.0 == u) ≡ false) l

  pub remove_session-Unlisted :
      (u : Uuid) (l : List (Uuid × Player)) → Unlisted u l → remove_session u l ≡ l
  unfolding remove_session
  remove_session-Unlisted u [] h = refl
  remove_session-Unlisted u ((v, p) ∷ l) h =
      rw h.0 (ap (λ m. (v, p) ∷ m) (remove_session-Unlisted u l h.1))

  pub insert_session-Unlisted :
      (u v : Uuid) (p : Player) (l : List (Uuid × Player))
      → u ≢ v
      → Unlisted v l
      → Unlisted v (insert_session u p l)
  unfolding insert_session
  insert_session-Unlisted u v p l other h =
      (differs (Bool-cases (u == v)), remove_session-All (λ entry. (entry.0 == v) ≡ false) u l h)
    where
      differs : ((u == v) ≡ true) ⊎ ((u == v) ≡ false) → (u == v) ≡ false
      differs (inl same) = absurd (other ((e.eqb_iff u v).0 same))
      differs (inr apart) = apart

  pub session_player-insert :
      (u : Uuid) (p : Player) (l : List (Uuid × Player))
      → session_player u (insert_session u p l) ≡ some p
  unfolding session_player insert_session
  session_player-insert u p l = rw ((e.eqb_iff u u).1 refl) refl

  session_player-remove :
      (u w : Uuid) (l : List (Uuid × Player))
      → u ≢ w
      → session_player w (remove_session u l) ≡ session_player w l
  unfolding session_player remove_session
  session_player-remove u w [] other = refl
  session_player-remove u w ((v, p) ∷ l) other = elim (Bool-cases (v == u)) [
    | inl same ↦ elim (Bool-cases (v == w)) [
      | inl found ↦ absurd (other (cc ((e.eqb_iff v u).0 same, (e.eqb_iff v w).0 found)))
      | inr apart ↦ rw (same, apart) (session_player-remove u w l other)
    ]
    | inr away ↦ elim (Bool-cases (v == w)) [
      | inl found ↦ rw (away, found) refl
      | inr apart ↦ rw (away, apart) (session_player-remove u w l other)
    ]
  ]

  pub session_player-insert_session :
      (u w : Uuid) (p : Player) (l : List (Uuid × Player))
      → u ≢ w
      → session_player w (insert_session u p l) ≡ session_player w l
  unfolding session_player insert_session
  session_player-insert_session u w p l other = elim (Bool-cases (u == w)) [
    | inl same ↦ absurd (other ((e.eqb_iff u w).0 same))
    | inr apart ↦ rw apart (session_player-remove u w l other)
  ]
