-- ===== src/Prelude/Outcome.antt =====
-- Outcomes of Rust code: a value, an error passed on by `?`, or one of the ways to go wrong. A
-- function that returns `Option` is `Opt`: its error carries nothing.
use mathlib.Core.Path.{◌≡◌, refl}
use mathlib.Core.Logic.{inl, inr, ◌↔◌}
use mathlib.Core.Option.{Option, none, some}
use mathlib.Core.List.{List, [], ◌∷◌, ◌++◌}
use sternhamla_server.Prelude.Membership.{◌∈◌, mem-append_left, mem-append_right, mem-append}

-- `panic`: an index out of range, a failed `unwrap` or assertion, `todo!`, an overflow.
-- `undefined`: `unwrap_unchecked` of nothing. `stuck`: the fuel of a loop ran out.
pub data Exec (E A : Type 0) : Type 0 where
  ok : A → Exec E A
  err : E → Exec E A
  panic undefined stuck : Exec E A

abbrev pub Opt : Type 0 → Type 0
Opt A = Exec (Unit {0}) A

abbrev pub nothing : {A : Type 0} → Opt A
nothing = err tt

infixl 5 ◌>>=◌ ◌>>◌
abbrev pub ◌>>=◌ : {E A B : Type 0} → Exec E A → (A → Exec E B) → Exec E B
ok a >>= f = f a
err e >>= f = err e
panic >>= f = panic
undefined >>= f = undefined
stuck >>= f = stuck

abbrev pub ◌>>◌ : {E B : Type 0} → Exec E (Unit {0}) → Exec E B → Exec E B
m >> k = m >>= λ _. k

-- `map_err`.
abbrev pub map_err : {E F A : Type 0} → (E → F) → Exec E A → Exec F A
map_err f (ok a) = ok a
map_err f (err e) = err (f e)
map_err f panic = panic
map_err f undefined = undefined
map_err f stuck = stuck

-- `ok_or`, and `unwrap` of an `Option`.
abbrev pub ok_or : {E A : Type 0} → E → Option A → Exec E A
ok_or e (some a) = ok a
ok_or e none = err e

abbrev pub unwrap : {E A : Type 0} → Option A → Exec E A
unwrap (some a) = ok a
unwrap none = panic

-- `unwrap_unchecked`, of an `Option` and of a `Result`.
abbrev pub some_unchecked : {E A : Type 0} → Option A → Exec E A
some_unchecked (some a) = ok a
some_unchecked none = undefined

abbrev pub ok_unchecked : {E F A : Type 0} → Exec E A → Exec F A
ok_unchecked (ok a) = ok a
ok_unchecked (err e) = undefined
ok_unchecked panic = panic
ok_unchecked undefined = undefined
ok_unchecked stuck = stuck

-- `iter.filter_map(f).collect()`, where `f` may go wrong.
abbrev pub keep_some : {E B : Type 0} → Opt B → Exec E (List B) → Exec E (List B)
keep_some (ok b) rest = rest >>= λ bs. ok (b ∷ bs)
keep_some (err _) rest = rest
keep_some panic rest = panic
keep_some undefined rest = undefined
keep_some stuck rest = stuck

unfoldable pub filter_map : {E A B : Type 0} → (A → Opt B) → List A → Exec E (List B)
filter_map f [] = ok []
filter_map f (x ∷ xs) = let rest = filter_map f xs in keep_some (f x) rest

-- `iter.flat_map(f).collect()`.
unfoldable pub flat_map : {E A B : Type 0} → (A → Exec E (List B)) → List A → Exec E (List B)
flat_map f [] = ok []
flat_map f (x ∷ xs) = do bs ← f x; rest ← flat_map f xs; ok (bs ++ rest)

-- A fallible `iter.map(f).collect()`.
unfoldable pub try_map : {E A B : Type 0} → (A → Exec E B) → List A → Exec E (List B)
try_map f [] = ok []
try_map f (x ∷ xs) = do y ← f x; ys ← try_map f xs; ok (y ∷ ys)

-- The code returns a value, and the value satisfies `P`.
abbrev pub Returns : {E A : Type 0} → (A → Type 0) → Exec E A → Type 0
Returns P (ok a) = P a
Returns P (err e) = ⊥
Returns P panic = ⊥
Returns P undefined = ⊥
Returns P stuck = ⊥

-- The code returns `Some` with the property, or `None`.
abbrev pub Answers : {A : Type 0} → (A → Type 0) → Type 0 → Opt A → Type 0
Answers P N (ok a) = P a
Answers P N (err _) = N
Answers P N panic = ⊥
Answers P N undefined = ⊥
Answers P N stuck = ⊥

pub Returns-elim :
    {E A : Type 0} (P : A → Type 0) (m : Exec E A) → Returns P m → (a : A) × (m ≡ ok a) × P a
Returns-elim P (ok a) h = (a, refl, h)
Returns-elim P (err e) h = absurd h
Returns-elim P panic h = absurd h
Returns-elim P undefined h = absurd h
Returns-elim P stuck h = absurd h

-- What `filter_map` collects, when no call goes wrong.
module _ {A B : Type 0} (f : A → Opt B) where
  abbrev pub Collects : List A → List B → Type 0
  Collects xs ys =
      ((x : A) (y : B) → x ∈ xs → f x ≡ ok y → y ∈ ys)
      × ((y : B) → y ∈ ys → (x : A) × (x ∈ xs) × (f x ≡ ok y))

  keep_some-Collects :
      (E : Type 0) (x : A) (xs : List A) (r : Opt B) (rest : Exec E (List B))
      → f x ≡ r
      → Answers (λ _. Unit {0}) (Unit {0}) r
      → Returns (Collects xs) rest
      → Returns (Collects (x ∷ xs)) (keep_some r rest)
  keep_some-Collects E x xs (ok b) (ok ys) e s h = (
    λ z y m q. elim m [ inl same ↦ inl (cc) | inr old ↦ inr (h.0 z y old q) ],
    λ y m. elim m [
      | inl same ↦ (x, inl refl, rw same e)
      | inr old ↦ let w = h.1 y old in (w.0, inr w.1, w.2)
    ],
  )
  keep_some-Collects E x xs (err u) (ok ys) e s h = (
    λ z y m q. elim m [ inl same ↦ absurd (cc) | inr old ↦ h.0 z y old q ],
    λ y m. let w = h.1 y m in (w.0, inr w.1, w.2),
  )
  keep_some-Collects E x xs panic rest e s h = absurd s
  keep_some-Collects E x xs undefined rest e s h = absurd s
  keep_some-Collects E x xs stuck rest e s h = absurd s
  keep_some-Collects E x xs r (err _) e s h = absurd h
  keep_some-Collects E x xs r panic e s h = absurd h
  keep_some-Collects E x xs r undefined e s h = absurd h
  keep_some-Collects E x xs r stuck e s h = absurd h

  pub filter_map-Collects :
      (E : Type 0) (xs : List A)
      → ((x : A) → x ∈ xs → Answers (λ _. Unit {0}) (Unit {0}) (f x))
      → Returns (Collects xs) (filter_map {E = E} f xs)
  unfolding filter_map
  filter_map-Collects E [] safe = ((λ x y m e. absurd m), (λ y m. absurd m))
  filter_map-Collects E (x ∷ xs) safe =
      keep_some-Collects E x xs (f x) _ refl (safe x (inl refl))
        (filter_map-Collects E xs (λ z m. safe z (inr m)))

-- What `flat_map` collects, when every call returns.
module _ {E A B : Type 0} (f : A → Exec E (List B)) where
  abbrev pub Flattens : List A → List B → Type 0
  Flattens xs ys =
      ((x : A) (zs : List B) (y : B) → x ∈ xs → f x ≡ ok zs → y ∈ zs → y ∈ ys)
      × ((y : B) → y ∈ ys → (x : A) × (zs : List B) × (x ∈ xs) × (f x ≡ ok zs) × (y ∈ zs))

  append-Flattens :
      (x : A) (xs : List A) (r rest : Exec E (List B))
      → f x ≡ r
      → Returns (λ _. Unit {0}) r
      → Returns (Flattens xs) rest
      → Returns (Flattens (x ∷ xs)) (r >>= λ bs. rest >>= λ cs. ok (bs ++ cs))
  append-Flattens x xs (ok bs) (ok cs) e s h = (
    λ z zs y m q n. elim m [
      | inl same ↦ let zs_bs : zs ≡ bs = cc in mem-append_left y bs cs (rw zs_bs at n)
      | inr old ↦ mem-append_right y bs cs (h.0 z zs y old q n)
    ],
    λ y m. elim (mem-append y bs cs m) [
      | inl new ↦ (x, bs, inl refl, e, new)
      | inr old ↦ let w = h.1 y old in (w.0, w.1, inr w.2, w.3, w.4)
    ],
  )
  append-Flattens x xs (ok bs) (err _) e s h = absurd h
  append-Flattens x xs (ok bs) panic e s h = absurd h
  append-Flattens x xs (ok bs) undefined e s h = absurd h
  append-Flattens x xs (ok bs) stuck e s h = absurd h
  append-Flattens x xs (err _) rest e s h = absurd s
  append-Flattens x xs panic rest e s h = absurd s
  append-Flattens x xs undefined rest e s h = absurd s
  append-Flattens x xs stuck rest e s h = absurd s

  pub flat_map-Flattens :
      (xs : List A)
      → ((x : A) → x ∈ xs → Returns (λ _. Unit {0}) (f x))
      → Returns (Flattens xs) (flat_map f xs)
  unfolding flat_map
  flat_map-Flattens [] safe = ((λ x zs y m. absurd m), (λ y m. absurd m))
  flat_map-Flattens (x ∷ xs) safe =
      append-Flattens x xs (f x) (flat_map f xs) refl (safe x (inl refl))
        (flat_map-Flattens xs (λ z m. safe z (inr m)))

pub Returns-imp :
    {E A : Type 0} (P Q : A → Type 0) (m : Exec E A)
    → ((a : A) → P a → Q a)
    → Returns P m
    → Returns Q m
Returns-imp P Q (ok a) f h = f a h
Returns-imp P Q (err e) f h = absurd h
Returns-imp P Q panic f h = absurd h
Returns-imp P Q undefined f h = absurd h
Returns-imp P Q stuck f h = absurd h

-- A call that returns, and what follows it.
pub Returns-bind :
    {E A B : Type 0} (P : A → Type 0) (Q : B → Type 0) (m : Exec E A) (f : A → Exec E B)
    → Returns P m
    → ((a : A) → P a → Returns Q (f a))
    → Returns Q (m >>= f)
Returns-bind P Q (ok a) f h next = next a h
Returns-bind P Q (err e) f h next = absurd h
Returns-bind P Q panic f h next = absurd h
Returns-bind P Q undefined f h next = absurd h
Returns-bind P Q stuck f h next = absurd h

-- A call that returns, under `unwrap_unchecked`.
pub Returns-ok_unchecked :
    {E A : Type 0} (F : Type 0) (P : A → Type 0) (m : Exec E A)
    → Returns P m
    → Returns P (ok_unchecked {F = F} m)
Returns-ok_unchecked F P (ok a) h = h
Returns-ok_unchecked F P (err e) h = absurd h
Returns-ok_unchecked F P panic h = absurd h
Returns-ok_unchecked F P undefined h = absurd h
Returns-ok_unchecked F P stuck h = absurd h

pub Returns_of_ok :
    {E A : Type 0} (P : A → Type 0) (m : Exec E A) (a : A) → m ≡ ok a → Returns P m → P a
Returns_of_ok P m a e h = rw e at h

pub Answers-imp :
    {A : Type 0} (P Q : A → Type 0) (N M : Type 0) (m : Opt A)
    → ((a : A) → P a → Q a)
    → (N → M)
    → Answers P N m
    → Answers Q M m
Answers-imp P Q N M (ok a) f g h = f a h
Answers-imp P Q N M (err e) f g h = g h
Answers-imp P Q N M panic f g h = absurd h
Answers-imp P Q N M undefined f g h = absurd h
Answers-imp P Q N M stuck f g h = absurd h

pub Answers-bind :
    {A B : Type 0} (P : A → Type 0) (Q : B → Type 0) (N M : Type 0) (m : Opt A) (f : A → Opt B)
    → Answers P N m
    → ((a : A) → P a → Answers Q M (f a))
    → (N → M)
    → Answers Q M (m >>= f)
Answers-bind P Q N M (ok a) f h next end = next a h
Answers-bind P Q N M (err e) f h next end = end h
Answers-bind P Q N M panic f h next end = absurd h
Answers-bind P Q N M undefined f h next end = absurd h
Answers-bind P Q N M stuck f h next end = absurd h

-- An answer that is not `None`.
pub Answers-ok :
    {A : Type 0} (P : A → Type 0) (N : Type 0) (m : Opt A)
    → Answers P N m
    → ¬ N
    → (a : A) × (m ≡ ok a) × P a
Answers-ok P N (ok a) h n = (a, refl, h)
Answers-ok P N (err e) h n = absurd (n h)
Answers-ok P N panic h n = absurd h
Answers-ok P N undefined h n = absurd h
Answers-ok P N stuck h n = absurd h

pub Answers-of_Returns :
    {A : Type 0} (P : A → Type 0) (N : Type 0) (m : Opt A) → Returns P m → Answers P N m
Answers-of_Returns P N (ok a) h = h
Answers-of_Returns P N (err e) h = absurd h
Answers-of_Returns P N panic h = absurd h
Answers-of_Returns P N undefined h = absurd h
Answers-of_Returns P N stuck h = absurd h

-- Inversion of a chain that returned.
pub >>=-eq-ok :
    {E A B : Type 0} (m : Exec E A) (f : A → Exec E B) (b : B)
    → (m >>= f) ≡ ok b
    → (a : A) × (m ≡ ok a) × (f a ≡ ok b)
>>=-eq-ok (ok a) f b h = (a, refl, h)
>>=-eq-ok (err e) f b h = absurd (cc)
>>=-eq-ok panic f b h = absurd (cc)
>>=-eq-ok undefined f b h = absurd (cc)
>>=-eq-ok stuck f b h = absurd (cc)

pub map_err-eq-ok :
    {E F A : Type 0} (f : E → F) (m : Exec E A) (a : A) → map_err f m ≡ ok a → m ≡ ok a
map_err-eq-ok f (ok x) a h = cc
map_err-eq-ok f (err e) a h = absurd (cc)
map_err-eq-ok f panic a h = absurd (cc)
map_err-eq-ok f undefined a h = absurd (cc)
map_err-eq-ok f stuck a h = absurd (cc)

pub ok_or-eq-ok : {E A : Type 0} (e : E) (o : Option A) (a : A) → ok_or e o ≡ ok a → o ≡ some a
ok_or-eq-ok e (some x) a h = cc
ok_or-eq-ok e none a h = absurd (cc)

-- What `try_map` collects, when every call returns.
module _ {E A B : Type 0} (f : A → Exec E B) where
  abbrev pub Maps : List A → List B → Type 0
  Maps xs ys = (y : B) → (y ∈ ys) ↔ ((x : A) × (x ∈ xs) × (f x ≡ ok y))

  cons-Maps :
      (x : A) (xs : List A) (r : Exec E B) (rest : Exec E (List B))
      → f x ≡ r
      → Returns (λ _. Unit {0}) r
      → Returns (Maps xs) rest
      → Returns (Maps (x ∷ xs)) (r >>= λ y. rest >>= λ ys. ok (y ∷ ys))
  cons-Maps x xs (ok b) (ok ys) e s h = λ y. (
    λ m. elim m [
      | inl same ↦ (x, inl refl, rw same e)
      | inr later ↦ let (z, at_z, made) = (h y).0 later in (z, inr at_z, made)
    ],
    λ (z, at_z, made). elim at_z [
      | inl same ↦ inl (cc)
      | inr later ↦ inr ((h y).1 (z, later, made))
    ],
  )
  cons-Maps x xs (ok b) (err _) e s h = absurd h
  cons-Maps x xs (ok b) panic e s h = absurd h
  cons-Maps x xs (ok b) undefined e s h = absurd h
  cons-Maps x xs (ok b) stuck e s h = absurd h
  cons-Maps x xs (err _) rest e s h = absurd s
  cons-Maps x xs panic rest e s h = absurd s
  cons-Maps x xs undefined rest e s h = absurd s
  cons-Maps x xs stuck rest e s h = absurd s

  pub try_map-Maps :
      (xs : List A)
      → ((x : A) → x ∈ xs → Returns (λ _. Unit {0}) (f x))
      → Returns (Maps xs) (try_map f xs)
  unfolding try_map
  try_map-Maps [] safe = λ y. (λ m. absurd m, λ (x, m, e). absurd m)
  try_map-Maps (x ∷ xs) safe =
      cons-Maps x xs (f x) (try_map f xs) refl (safe x (inl refl))
        (try_map-Maps xs (λ z m. safe z (inr m)))
