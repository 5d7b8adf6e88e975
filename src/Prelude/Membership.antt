-- ===== src/Prelude/Membership.antt =====
-- Membership as a predicate by recursion, and what it shares with `contains`.
use mathlib.Core.Path.{◌≡◌}
use mathlib.Core.Logic.{◌⊎◌, inl, inr}
use mathlib.Core.Bool.{Bool, true, false, not, ◌&&◌, ◌||◌}
use mathlib.Core.Option.{some}
use mathlib.Core.List.{List, [], ◌∷◌, ◌++◌}
use native.Mathlib.Omega.{arith}
use Prim.Native.Nat.{ℕ, zero, suc}
use sternhamla_server.Prelude.Tests.{Eq, Bool-cases, ◌==◌}
use sternhamla_server.Prelude.Lists.{get_elem?, contains}

module _ {A : Type 0} where
  infix 40 ◌∈◌
  abbrev pub ◌∈◌ : A → List A → Type 0
  a ∈ [] = ⊥
  a ∈ x ∷ xs = (a ≡ x) ⊎ (a ∈ xs)

  -- The elements are pairwise different.
  abbrev pub Distinct : List A → Type 0
  Distinct [] = Unit
  Distinct (x ∷ xs) = ¬ (x ∈ xs) × Distinct xs

  pub mem-get_elem? : (xs : List A) (i : ℕ) (a : A) → get_elem? xs i ≡ some a → a ∈ xs
  mem-get_elem? [] i a h = absurd (cc)
  mem-get_elem? (x ∷ xs) zero a h = inl (cc)
  mem-get_elem? (x ∷ xs) (suc i) a h = inr (mem-get_elem? xs i a h)

  pub get_elem?-mem : (xs : List A) (a : A) → a ∈ xs → (i : ℕ) × (get_elem? xs i ≡ some a)
  get_elem?-mem [] a h = absurd h
  get_elem?-mem (x ∷ xs) a (inl e) = (zero, cc)
  get_elem?-mem (x ∷ xs) a (inr h) = let (i, found) = get_elem?-mem xs a h in (suc i, found)

  pub mem-append_left : (a : A) (xs ys : List A) → a ∈ xs → a ∈ (xs ++ ys)
  mem-append_left a [] ys h = absurd h
  mem-append_left a (x ∷ xs) ys (inl e) = inl e
  mem-append_left a (x ∷ xs) ys (inr h) = inr (mem-append_left a xs ys h)

  pub mem-append_right : (a : A) (xs ys : List A) → a ∈ ys → a ∈ (xs ++ ys)
  mem-append_right a [] ys h = h
  mem-append_right a (x ∷ xs) ys h = inr (mem-append_right a xs ys h)

  pub mem-append : (a : A) (xs ys : List A) → a ∈ (xs ++ ys) → (a ∈ xs) ⊎ (a ∈ ys)
  mem-append a [] ys h = inr h
  mem-append a (x ∷ xs) ys (inl e) = inl (inl e)
  mem-append a (x ∷ xs) ys (inr h) = elim (mem-append a xs ys h) [
    | inl l ↦ inl (inr l)
    | inr r ↦ inr r
  ]

module _ {A : Type 0} ⦃e : Eq A⦄ where
  pub contains-mem : (xs : List A) (a : A) → contains xs a ≡ true → a ∈ xs
  contains-mem [] a h = absurd (cc)
  contains-mem (x ∷ xs) a h = ground (arith, e.eqb_iff x a, contains-mem xs a)

  pub mem-contains : (xs : List A) (a : A) → a ∈ xs → contains xs a ≡ true
  mem-contains [] a h = absurd h
  mem-contains (x ∷ xs) a h = ground (arith, e.eqb_iff x a, mem-contains xs a)

  pub not-mem_of_contains : (xs : List A) (a : A) → contains xs a ≡ false → ¬ (a ∈ xs)
  not-mem_of_contains xs a h m = cc (mem-contains xs a m)

  pub contains_of_not-mem : (xs : List A) (a : A) → ¬ (a ∈ xs) → contains xs a ≡ false
  contains_of_not-mem xs a h = elim (Bool-cases (contains xs a)) [
    | inl seen ↦ absurd (h (contains-mem xs a seen))
    | inr fresh ↦ fresh
  ]

  pub contains-append :
      (xs : List A) (a b : A) → contains (xs ++ a ∷ []) b ≡ (contains xs b || a == b)
  contains-append [] a b = ground arith
  contains-append (x ∷ xs) a b = ground (arith, contains-append xs a b)

-- Every element satisfies the predicate.
abbrev pub All {ℓ} : {A : Type 0} → (A → Type ℓ) → List A → Type ℓ
All P [] = Unit
All P (x ∷ xs) = P x × All P xs

-- Checks of a concrete list, by evaluation.
unfoldable pub every : {A : Type 0} → (A → Bool) → List A → Bool
every p [] = true
every p (x ∷ xs) = p x && every p xs

pub every_sound :
    {A : Type 0} (p : A → Bool) (xs : List A) (a : A) → every p xs ≡ true → a ∈ xs → p a ≡ true
unfolding every
every_sound p [] a h m = absurd m
every_sound p (x ∷ xs) a h (inl e) = ground arith
every_sound p (x ∷ xs) a h (inr m) = every_sound p xs a (ground arith) m

unfoldable pub all_distinct : {A : Type 0} ⦃e : Eq A⦄ → List A → Bool
all_distinct [] = true
all_distinct (x ∷ xs) = not (contains xs x) && all_distinct xs

pub all_distinct_sound :
    {A : Type 0} ⦃e : Eq A⦄ (xs : List A) → all_distinct xs ≡ true → Distinct xs
unfolding all_distinct
all_distinct_sound [] h = tt
all_distinct_sound (x ∷ xs) h =
    (not-mem_of_contains xs x (ground arith), all_distinct_sound xs (ground arith))

pub All-append {ℓ} :
    {A : Type 0} (P : A → Type ℓ) (xs ys : List A) → All P xs → All P ys → All P (xs ++ ys)
All-append P [] ys hx hy = hy
All-append P (x ∷ xs) ys hx hy = (hx.0, All-append P xs ys hx.1 hy)
