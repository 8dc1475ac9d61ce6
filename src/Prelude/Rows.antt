-- ===== src/Prelude/Rows.antt =====
-- Tables as lists of rows, and what their updates and queries leave behind.
use Prim.Native.Nat.{◌≤◌}
use mathlib.Core.Path.{◌≡◌, refl, sym, subst}
use mathlib.Core.Logic.{◌⊎◌, inl, inr}
use mathlib.Core.Bool.{Bool, true, false}
use mathlib.Core.List.{List, [], ◌∷◌, ◌++◌}
use mathlib.Core.Option.{Option, none, some, some_inj}
use native.Mathlib.Omega.{arith}
use vpp_backend.Prelude.Tests.{if◌then◌else◌, Bool-cases, some_ne_none}
use vpp_backend.Prelude.Lists.{All, All-map, count}

module _ {ℓ} {A : Type ℓ} where
  -- `WHERE test`, updating the rows by `f`.
  unfoldable pub update_where : (A → Bool) → (A → A) → List A → List A
  update_where test f [] = []
  update_where test f (x ∷ xs) = (if test x then f x else x) ∷ update_where test f xs

  -- `Take`: the first row that passes the test.
  unfoldable pub take_where : (A → Bool) → List A → Option A
  take_where test [] = none
  take_where test (x ∷ xs) = let rest = take_where test xs in if test x then some x else rest

  unfoldable pub select_where : (A → Bool) → List A → List A
  select_where test [] = []
  select_where test (x ∷ xs) = let rest = select_where test xs in if test x then x ∷ rest else rest

-- One of the list.
abbrev pub Among : {A : Type 0} → A → List A → Type 0
Among x [] = ⊥
Among x (y ∷ ys) = (x ≡ y) ⊎ Among x ys

pub Among-append : {A : Type 0} (x : A) (xs ys : List A) → Among x xs → Among x (xs ++ ys)
Among-append x [] ys m = absurd m
Among-append x (y ∷ xs) ys (inl e) = inl e
Among-append x (y ∷ xs) ys (inr m) = inr (Among-append x xs ys m)

-- What holds of each entry may use that it is one of the list.
pub All-Among : {A : Type 0} (xs : List A) → All (λ x. Among x xs) xs
All-Among [] = tt
All-Among (x ∷ xs) =
    (inl refl, All-map (λ y. Among y xs) (λ y. Among y (x ∷ xs)) (λ y m. inr m) xs (All-Among xs))

pub Among-All {κ} :
    {A : Type 0} (P : A → Type κ) (x : A) (xs : List A) → All P xs → Among x xs → P x
Among-All P x [] h m = absurd m
Among-All P x (y ∷ ys) h (inl e) = subst P (sym e) h.0
Among-All P x (y ∷ ys) h (inr m) = Among-All P x ys h.1 m

pub Among-count :
    {A : Type 0} (test : A → Bool) (x : A) (xs : List A)
    → Among x xs
    → test x ≡ true
    → 1 ≤ count test xs
Among-count test x [] m h = absurd m
Among-count test x (y ∷ ys) (inl e) h = let here = subst (λ z. test z ≡ true) e h in ground arith
Among-count test x (y ∷ ys) (inr m) h = let rest = Among-count test x ys m h in ground arith

pub Among-update_where :
    {A : Type 0} (test : A → Bool) (f : A → A) (x : A) (xs : List A)
    → Among x xs
    → test x ≡ true
    → Among (f x) (update_where test f xs)
unfolding update_where
Among-update_where test f x [] m h = absurd m
Among-update_where test f x (y ∷ ys) (inl e) h =
    inl (subst (λ z. f x ≡ (if test z then f z else z)) e (rw h refl))
Among-update_where test f x (y ∷ ys) (inr m) h = inr (Among-update_where test f x ys m h)

pub Among-select_where :
    {A : Type 0} (test : A → Bool) (x : A) (xs : List A)
    → Among x xs
    → test x ≡ true
    → Among x (select_where test xs)
unfolding select_where
Among-select_where test x [] m h = absurd m
Among-select_where test x (y ∷ ys) (inl e) h =
    let here = subst (λ z. test z ≡ true) e h in rw here (inl e)
Among-select_where test x (y ∷ ys) (inr m) h = elim (Bool-cases (test y)) [
  | inl k ↦ rw k (inr (Among-select_where test x ys m h))
  | inr k ↦ rw k (Among-select_where test x ys m h)
]

-- Where rows pass the test, one is found.
pub count-Among :
    {A : Type 0} (test : A → Bool) (xs : List A)
    → 1 ≤ count test xs
    → (x : A) × Among x xs × (test x ≡ true)
count-Among test [] h = absurd (omega arith)
count-Among test (x ∷ xs) h = elim (Bool-cases (test x)) [
  | inl e ↦ (x, inl refl, e)
  | inr e ↦ let (y, m, k) = count-Among test xs (ground arith) in (y, inr m, k)
]

-- Rows that pass the test become rows with `P`, the others have it already.
pub All-update_where {ℓ κ} :
    {A : Type ℓ} (P : A → Type κ) (test : A → Bool) (f : A → A)
    → ((x : A) → test x ≡ true → P (f x))
    → ((x : A) → test x ≡ false → P x)
    → (xs : List A) → All P (update_where test f xs)
unfolding update_where
All-update_where P test f h k [] = tt
All-update_where P test f h k (x ∷ xs) = elim (Bool-cases (test x)) [
  | inl e ↦ (rw e (h x e), All-update_where P test f h k xs)
  | inr e ↦ (rw e (k x e), All-update_where P test f h k xs)
]

pub take_where_sound {ℓ} :
    {A : Type ℓ} (test : A → Bool) (xs : List A) {x : A}
    → take_where test xs ≡ some x
    → test x ≡ true
unfolding take_where
take_where_sound test [] e = cc
take_where_sound test (y ∷ ys) {x} e = elim (Bool-cases (test y)) [
  | inl h ↦ subst (λ z. test z ≡ true) (some_inj.0 (rw (h, take_where) at e)) h
  | inr h ↦ take_where_sound test ys (rw (h, take_where) at e)
]

pub take_where-All {ℓ κ} :
    {A : Type ℓ} (P : A → Type κ) (test : A → Bool) (xs : List A) {x : A}
    → All P xs
    → take_where test xs ≡ some x
    → P x
unfolding take_where
take_where-All P test [] h e = cc
take_where-All P test (y ∷ ys) h e = elim (Bool-cases (test y)) [
  | inl t ↦ subst P (some_inj.0 (rw (t, take_where) at e)) h.0
  | inr t ↦ take_where-All P test ys h.1 (rw (t, take_where) at e)
]

pub take_where-counted {ℓ} :
    {A : Type ℓ} (p q : A → Bool) (xs : List A) {x : A}
    → take_where q xs ≡ some x
    → p x ≡ true
    → 1 ≤ count p xs
unfolding take_where
take_where-counted p q [] e h = cc
take_where-counted p q (y ∷ ys) e h = elim (Bool-cases (q y)) [
  | inl k ↦
      let here = subst (λ z. p z ≡ true) (sym (some_inj.0 (rw (k, take_where) at e))) h in
      ground arith
  | inr k ↦ let rest = take_where-counted p q ys (rw (k, take_where) at e) h in ground arith
]

pub take_where-none {ℓ} :
    {A : Type ℓ} (test : A → Bool) (xs : List A) → take_where test xs ≡ none → count test xs ≡ 0
unfolding take_where
take_where-none test [] e = refl
take_where-none test (x ∷ xs) e = elim (Bool-cases (test x)) [
  | inl h ↦ absurd (some_ne_none (rw (h, take_where) at e))
  | inr h ↦ rw h (take_where-none test xs (rw (h, take_where) at e))
]

-- Rows that pass the test and have `P` keep it when they are updated.
pub All-update_where-when {ℓ κ} :
    {A : Type ℓ} (P : A → Type κ) (test : A → Bool) (f : A → A)
    → ((x : A) → test x ≡ true → P x → P (f x))
    → (xs : List A) → All P xs
    → All P (update_where test f xs)
unfolding update_where
All-update_where-when P test f h [] k = tt
All-update_where-when P test f h (x ∷ xs) k = elim (Bool-cases (test x)) [
  | inl e ↦ (rw e (h x e k.0), All-update_where-when P test f h xs k.1)
  | inr e ↦ (rw e k.0, All-update_where-when P test f h xs k.1)
]
