-- ===== src/Playground/Outcome.antt =====
-- src/bin/playground.rs: how the game of the agents may end.
use sternhamla_server.Prelude.{
  ℕ, zero, suc, ◌+◌, ◌<◌, ◌≤◌, ◌≡◌, ◌↔◌, ◌⊎◌, inl, inr, refl, ap, ◌∙◌, Option, none, some, List, [],
  ◌∷◌, ◌∈◌, contains, get_elem?, mem-get_elem?, Exec, ok, err, panic, undefined, stuck, ◌>>=◌, Maps,
  try_map, try_map-Maps, Returns-elim, Bool-cases, Option-cases, ltb, arith,
}
use sternhamla_server.Player.{Player, player1, player2, player_eq}
use sternhamla_server.Board.Hex.{HexIdx, idx_eq}
use sternhamla_server.Movement.{Movement, MovementIndices, to_indices, iter_player_movements}
use sternhamla_server.Movement.Player.{LegalFor, iter_player_movements-LegalFor}
use sternhamla_server.Movement.Apply.{Acceptable-indices}
use sternhamla_server.Game.{
  Game, GameStatus, playing, finished, Scores, status_turns, new_game, apply_movement_unchecked,
}
use sternhamla_server.Game.Invariant.{Inv}
use sternhamla_server.Game.Available.{LegalFor-Acceptable}
use sternhamla_server.Rules.{MayMove, opening, turn}
use sternhamla_server.Rules.Chains.{pieces_on}
use sternhamla_server.Rules.Moves.{Leads-iff}
use sternhamla_server.Rules.Refine.{match_of, Good, new_game-Opening, apply_movement_unchecked-Turn}
use sternhamla_server.Playground.{
  Chance, outside, agent_goal, select_brownian, pick, select_min, select_movement, play_round, play,
  playground,
}

-- `choose` gives an element, and nothing only of nothing; sorting keeps the elements.
pub record IsChance (c : Chance) : Type 0 where
  pub chosen_movement : (l : List Movement) (m : Movement) → c.choose_movement l ≡ some m → m ∈ l
  pub no_movement : (l : List Movement) → c.choose_movement l ≡ none → l ≡ []
  pub chosen : (l : List MovementIndices) (m : MovementIndices) → c.choose l ≡ some m → m ∈ l
  pub nothing_chosen : (l : List MovementIndices) → c.choose l ≡ none → l ≡ []
  pub sorted :
      (key : MovementIndices → Option ℕ) (l : List MovementIndices) (m : MovementIndices)
      → m ∈ c.sorted_unstable_by_key key l
      → m ∈ l

module _ (g : Game) (p : Player) where
  -- A movement that the rules allow, or undefined behaviour where they allow none.
  abbrev Selected : {E : Type 0} → Exec E MovementIndices → Type 0
  Selected (ok m) = MayMove (pieces_on g.board) p m.0 m.1
  Selected undefined = (a c : HexIdx) → ¬ MayMove (pieces_on g.board) p a c
  Selected (err x) = ⊥
  Selected panic = ⊥
  Selected stuck = ⊥

module _ (E : Type 0) (g : Game) (p : Player) (turns : ℕ) (scores : Scores) (inv : Inv g)
    (going : g.status ≡ playing p turns scores) (c : Chance) (law : IsChance c) where
  -- The movements that are found.
  found :
      (ms : List Movement) × (iter_player_movements {E = E} g.board p ≡ ok ms)
      × ((m : Movement) → (m ∈ ms) ↔ LegalFor g.board p m)
  found =
      Returns-elim _ (iter_player_movements g.board p)
        (iter_player_movements-LegalFor g.board inv.star.square p E)

  ends :
      (m : Movement)
      → LegalFor g.board p m
      → (ends : MovementIndices) × (to_indices {E = E} m ≡ ok ends)
        × MayMove (pieces_on g.board) p ends.0 ends.1
  ends m l =
      let (from, to, made, start, free) =
        Acceptable-indices E g.board m p (LegalFor-Acceptable g p turns scores inv going m l) in
      ((from, to), made, (Leads-iff E g.board inv.star p from to).0 (m, l, made))

  none_allowed :
      (ms : List Movement)
      → ((m : Movement) → (m ∈ ms) ↔ LegalFor g.board p m)
      → ms ≡ []
      → (a c : HexIdx) → ¬ MayMove (pieces_on g.board) p a c
  none_allowed ms lists e a c may =
      let (m, l, made) = (Leads-iff E g.board inv.star p a c).1 may in rw e at ((lists m).1 l)

  select_brownian-Selected : Selected g p (select_brownian {E = E} c p g.board)
  unfolding select_brownian
  select_brownian-Selected =
      let (ms, ran, lists) = found in
      rw ran (elim (Option-cases (c.choose_movement ms)) [
        | inl empty ↦ rw empty (none_allowed ms lists (law.no_movement ms empty))
        | inr (m, drawn) ↦
            let (to, made, may) = ends m ((lists m).0 (law.chosen_movement ms m drawn)) in
            rw (drawn, made) may
      ])

  -- What the agents filter and sort.
  outside-mem :
      (goal : List HexIdx) (ms : List MovementIndices) (m : MovementIndices)
      → m ∈ outside goal ms
      → m ∈ ms
  outside-mem goal [] m h = absurd h
  outside-mem goal (k ∷ ms) m h = elim (Bool-cases (contains goal k.0)) [
    | inl there ↦ inr (outside-mem goal ms m (rw there at h))
    | inr away ↦ elim (rw away at h) as (λ _. (m ≡ k) ⊎ (m ∈ ms)) [
      | inl same ↦ inl same
      | inr later ↦ inr (outside-mem goal ms m later)
    ]
  ]

  found_indices :
      (ms : List Movement)
      → ((m : Movement) → (m ∈ ms) ↔ LegalFor g.board p m)
      → (is : List MovementIndices) × (try_map {E = E} to_indices ms ≡ ok is)
        × Maps {E = E} to_indices ms is
  found_indices ms lists = Returns-elim _ (try_map to_indices ms) (
      try_map-Maps to_indices ms
        (λ m at_m. let (to, made, may) = ends m ((lists m).0 at_m) in rw made tt))

  indices-MayMove :
      (ms : List Movement)
      → ((m : Movement) → (m ∈ ms) ↔ LegalFor g.board p m)
      → (is : List MovementIndices) → Maps {E = E} to_indices ms is
      → (i : MovementIndices) → i ∈ is
      → MayMove (pieces_on g.board) p i.0 i.1
  indices-MayMove ms lists is maps i at_i =
      let (m, at_m, made) = (maps i).0 at_i in
      (Leads-iff E g.board inv.star p i.0 i.1).0 (m, (lists m).0 at_m, made)

  pick-Selected :
      (ms : List Movement)
      → ((m : Movement) → (m ∈ ms) ↔ LegalFor g.board p m)
      → (is : List MovementIndices) → Maps {E = E} to_indices ms is
      → (sorted : List MovementIndices) → ((m : MovementIndices) → m ∈ sorted → m ∈ is)
      → Selected g p (pick {E = E} c sorted is)
  unfolding pick
  pick-Selected ms lists is maps sorted among = elim (Option-cases (get_elem? sorted c.sample)) [
    | inr (m, near) ↦
        rw (pick, near)
          (indices-MayMove ms lists is maps m (among m (mem-get_elem? sorted c.sample m near)))
    | inl far ↦
        rw (pick, far)
          (elim (Option-cases (c.choose is)) [
            | inr (m, drawn) ↦ rw drawn (indices-MayMove ms lists is maps m (law.chosen is m drawn))
            | inl empty ↦ rw empty (λ a c' may.
                let (m, l, made) = (Leads-iff E g.board inv.star p a c').1 may in
                rw (law.nothing_chosen is empty) at ((maps (a, c')).1 (m, (lists m).1 l, made)))
          ])
  ]

  select_min-Selected : Selected g p (select_min {E = E} c p g.board)
  unfolding select_min
  select_min-Selected =
      let (ms, ran, lists) = found in
      let (is, indices, maps) = found_indices ms lists in
      rw (ran, indices)
        (pick-Selected ms lists is maps _ (λ m at_m.
          outside-mem (agent_goal p) is m (law.sorted _ (outside (agent_goal p) is) m at_m)))

select_movement-Selected :
    (E : Type 0) (g : Game) (p : Player) (turns : ℕ) (scores : Scores)
    → Inv g
    → g.status ≡ playing p turns scores
    → (c : Chance) → IsChance c
    → Selected g p (select_movement {E = E} c p g.board)
unfolding select_movement
select_movement-Selected E g player1 turns scores inv going c law =
    select_min-Selected E g player1 turns scores inv going c law
select_movement-Selected E g player2 turns scores inv going c law =
    select_brownian-Selected E g player2 turns scores inv going c law

abbrev Over : GameStatus → Type 0
Over (playing p turns scores) = 1024 ≤ turns
Over (finished p turns scores) = Unit

-- How the loop may end: with a game that is won or has had 1024 turns, or with undefined behaviour
-- in a game where the rules allow the player to move nothing.
abbrev pub Ended : {E : Type 0} → Exec E Game → Type 0
Ended (ok g) = Good g × Over g.status
Ended undefined =
    (g : Game) × (p : Player) × (turns : ℕ) × (scores : Scores) × Good g
    × (g.status ≡ playing p turns scores)
    × ((a c : HexIdx) → ¬ MayMove (pieces_on g.board) p a c)
Ended (err x) = ⊥
Ended panic = ⊥
Ended stuck = ⊥

module _ (E : Type 0) (chance : ℕ → Chance) (law : (n : ℕ) → IsChance (chance n)) where
  -- One turn, and the rounds after it.
  then-Ended :
      (later : Game → Exec E Game) (g : Game) (p : Player) (turns : ℕ) (scores : Scores)
      → Good g
      → g.status ≡ playing p turns scores
      → turns < 1024
      → ((g' : Game) → Good g' → status_turns g'.status ≡ turns + 1 → Ended (later g'))
      → (r : Exec E MovementIndices) → Selected g p r
      → Ended (r >>= λ m. apply_movement_unchecked g m >>= λ r. later r.0)
  unfolding status_turns
  then-Ended later g p turns scores good going few next (ok m) may =
      let (r, ran, after) = Returns-elim _ (apply_movement_unchecked {E = E} g m) (
        apply_movement_unchecked-Turn E g p turns scores m.0 m.1 good.0 going (omega (arith, few))
          may) in
      rw ran (
        next r.0 (after.0, turn (match_of g) (match_of r.0) m.0 m.1 good.1 after.2)
          (after.2.turns ∙ ap (λ st. status_turns st + 1) going))
  then-Ended later g p turns scores good going few next undefined blocked =
      (g, p, turns, scores, good, going, blocked)
  then-Ended later g p turns scores good going few next (err x) may = absurd may
  then-Ended later g p turns scores good going few next panic may = absurd may
  then-Ended later g p turns scores good going few next stuck may = absurd may

  round-Ended :
      (later : Game → Exec E Game) (g : Game) (st : GameStatus)
      → g.status ≡ st
      → Good g
      → ((g' : Game)
          → Good g'
          → status_turns g'.status ≡ status_turns st + 1
          → status_turns st < 1024
          → Ended (later g'))
      → Ended (play_round chance later g st)
  unfolding play_round status_turns
  round-Ended later g (finished p turns scores) going good next = (good, rw going tt)
  round-Ended later g (playing p turns scores) going good next =
      elim (Bool-cases (ltb turns 1024)) [
        | inl more ↦
            let few : turns < 1024 = ground (arith, more) in
            rw more (
              then-Ended later g p turns scores good going few
                (λ g' good' one. next g' good' one few) (select_movement (chance turns) p g.board)
                (select_movement-Selected E g p turns scores good.0 going (chance turns)
                  (law turns)))
        | inr enough ↦ rw enough (good, rw going (ground (arith, enough)))
      ]

  play-Ended :
      (fuel : ℕ) (g : Game)
      → Good g
      → status_turns g.status ≤ 1024
      → 1024 < status_turns g.status + fuel
      → Ended (play {E = E} chance fuel g)
  unfolding play
  play-Ended zero g good low enough = absurd (omega (arith, low, enough))
  play-Ended (suc fuel) g good low enough =
      round-Ended (λ g'. play chance fuel g') g g.status refl good
        (λ g' good' one few.
          play-Ended fuel g' good' (omega (arith, one, few)) (omega (arith, one, enough)))

  -- Let `choose` draw an element of what it is given, and nothing only of nothing, and let
  -- sorting add no elements. Then `main` never panics, and 1025 rounds are enough. If the loop
  -- ends, its last game satisfies the invariant, turns that the rules allow lead to it from the
  -- opening, and it is won or has had 1024 turns. The behaviour is undefined only where such a
  -- game goes on and the rules allow the player to move nothing.
  pub playground-Ended : Ended (playground {E = E} chance)
  unfolding playground status_turns
  playground-Ended =
      let (g, made, fresh) = Returns-elim _ (new_game {E = E}) (new_game-Opening E) in
      rw made (
        play-Ended 1025 g (fresh.0, opening (match_of g) fresh.1)
          (omega (arith, ap status_turns fresh.2)) (omega (arith, ap status_turns fresh.2)))
