-- ===== src/Client/Errorless.antt =====
-- What the view of a player computes has no error of its own.
use sternhamla_server.Prelude.{
  ℕ, Bool-cases, inl, inr, List, [], ◌∷◌, Exec, ok, err, panic, undefined, stuck, ◌>>=◌, try_map,
  leb, ◌-◌,
}
use sternhamla_server.Player.{Player, player1, player2}
use sternhamla_server.Board.Hex.{HexIdx, board_length}
use sternhamla_server.Movement.{MovementIndices}
use sternhamla_server.Messages.{ServerBroadcast}
use sternhamla_server.Client.{
  ClientError, flip, relative_idx, relative_movement, translate_broadcast,
}

-- The code returns no error.
abbrev pub Errorless : {A : Type 0} → Exec ClientError A → Type 0
Errorless (err x) = ⊥
Errorless _ = Unit

Errorless-bind :
    {A B : Type 0} (r : Exec ClientError A) (f : A → Exec ClientError B)
    → Errorless r
    → ((a : A) → Errorless (f a))
    → Errorless (r >>= f)
Errorless-bind (ok a) f e h = h a
Errorless-bind (err x) f e h = absurd e
Errorless-bind panic f e h = tt
Errorless-bind undefined f e h = tt
Errorless-bind stuck f e h = tt

flip-Errorless : (c : ℕ) → Errorless (flip c)
unfolding flip
flip-Errorless c = elim (Bool-cases (leb c (board_length - 1))) [
  | inl inside ↦ rw inside tt
  | inr outside ↦ rw outside tt
]

relative_idx-Errorless : (self : Player) (k : HexIdx) → Errorless (relative_idx self k)
unfolding relative_idx
relative_idx-Errorless player1 k = tt
relative_idx-Errorless player2 (q, r) =
    Errorless-bind (flip q) _ (flip-Errorless q)
      (λ q'. Errorless-bind (flip r) _ (flip-Errorless r) (λ r'. tt))

pub relative_movement-Errorless :
    (self : Player) (m : MovementIndices) → Errorless (relative_movement self m)
unfolding relative_movement
relative_movement-Errorless self (from, to) =
    Errorless-bind (relative_idx self from) _ (relative_idx-Errorless self from) (λ from'.
      Errorless-bind (relative_idx self to) _ (relative_idx-Errorless self to) (λ to'. tt))

pub try_map-Errorless :
    {A B : Type 0} (f : A → Exec ClientError B) (xs : List A)
    → ((x : A) → Errorless (f x))
    → Errorless (try_map f xs)
unfolding try_map
try_map-Errorless f [] h = tt
try_map-Errorless f (x ∷ xs) h =
    Errorless-bind (f x) _ (h x)
      (λ y. Errorless-bind (try_map f xs) _ (try_map-Errorless f xs h) (λ ys. tt))

pub translate_broadcast-Errorless :
    (Uuid : Type 0) (self : Player) (m : ServerBroadcast)
    → Errorless (translate_broadcast {Uuid = Uuid} self m)
unfolding translate_broadcast
translate_broadcast-Errorless Uuid self ServerBroadcast.disconnect = tt
translate_broadcast-Errorless Uuid self (ServerBroadcast.movement p m scores) =
    Errorless-bind (relative_movement self m) _ (relative_movement-Errorless self m) (λ m'. tt)
translate_broadcast-Errorless Uuid self (ServerBroadcast.game_finished result) = tt
