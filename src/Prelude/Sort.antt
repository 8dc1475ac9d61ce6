-- ===== src/Prelude/Sort.antt =====
-- Go's `sort.SliceStable` and `sort.Slice` with a `less` of their own: the insertion that keeps
-- the order of entries that `less` does not tell apart.
use mathlib.Core.Path.{◌≡◌, refl, sym, ap, subst, ◌∙◌}
use mathlib.Core.Logic.{inl, inr}
use mathlib.Core.Bool.{Bool, true, false}
use mathlib.Core.List.Permᴰ
use mathlib.Core.List.{List, [], ◌∷◌, Permᴰ}
use Prim.Native.Nat.{suc}
use native.Mathlib.Omega.{arith}
use vpp_backend.Prelude.Tests.{if◌then◌else◌, Bool-cases}
use vpp_backend.Prelude.Lists.{All, length, count}

-- A strict order in which two entries that neither precedes the other are equal.
pub record LawfulLess {ℓ} {A : Type ℓ} (less : A → A → Bool) : Type ℓ where
  pub asym : (a b : A) → less a b ≡ true → less b a ≡ false
  pub trans : (a b c : A) → less a b ≡ true → less b c ≡ true → less a c ≡ true
  pub connected : (a b : A) → less a b ≡ false → less b a ≡ false → a ≡ b

module _ {ℓ} {A : Type ℓ} (less : A → A → Bool) where
  unfoldable pub insert : A → List A → List A
  insert x [] = x ∷ []
  insert x (y ∷ ys) = let rest = insert x ys in if less y x then y ∷ rest else x ∷ y ∷ ys

  unfoldable pub sort : List A → List A
  unfolding insert
  sort [] = []
  sort (x ∷ xs) = insert x (sort xs)

  insert-nil : (x : A) → insert x [] ≡ x ∷ []
  unfolding insert
  insert-nil x = refl

  insert-past : (x y : A) (ys : List A) → less y x ≡ true → insert x (y ∷ ys) ≡ y ∷ insert x ys
  unfolding insert
  insert-past x y ys h = rw h refl

  insert-here : (x y : A) (ys : List A) → less y x ≡ false → insert x (y ∷ ys) ≡ x ∷ y ∷ ys
  unfolding insert
  insert-here x y ys h = rw h refl

  insert-Permᴰ : (x : A) (ys : List A) → Permᴰ (insert x ys) (x ∷ ys)
  unfolding insert
  insert-Permᴰ x [] = Permᴰ.refl _
  insert-Permᴰ x (y ∷ ys) = elim (Bool-cases (less y x)) [
    | inl e ↦ rw e (Permᴰ.trans (Permᴰ.cons refl (insert-Permᴰ x ys)) (Permᴰ.swap refl refl))
    | inr e ↦ rw e (Permᴰ.refl _)
  ]

  -- A sorted list is a rearrangement of the list it comes from.
  pub sort-Permᴰ : (xs : List A) → Permᴰ (sort xs) xs
  unfolding sort
  sort-Permᴰ [] = Permᴰ.nil
  sort-Permᴰ (x ∷ xs) = Permᴰ.trans (insert-Permᴰ x (sort xs)) (Permᴰ.cons refl (sort-Permᴰ xs))

module _ {ℓ} {A : Type ℓ} {less : A → A → Bool} (lawful : LawfulLess less) where
  -- What is past `b` is past everything that `b` is not past.
  less_below : (a b y : A) → less y a ≡ true → less y b ≡ false → less b a ≡ true
  less_below a b y h k = elim (Bool-cases (less b y)) [
    | inl e ↦ lawful.trans b y a e h
    | inr e ↦ subst (λ z. less z a ≡ true) (lawful.connected y b k e) h
  ]

  -- Two entries that both stand before `ys`.
  insert-two :
      (a b : A) (ys : List A)
      → insert less a ys ≡ a ∷ ys
      → insert less b ys ≡ b ∷ ys
      → insert less a (b ∷ ys) ≡ insert less b (a ∷ ys)
  insert-two a b ys ha hb = elim (Bool-cases (less b a)) [
    | inl e ↦ rw (insert-past less a b ys e, insert-here less b a ys (lawful.asym b a e), ha) refl
    | inr e ↦ elim (Bool-cases (less a b)) [
      | inl f ↦ rw (insert-here less a b ys e, insert-past less b a ys f, hb) refl
      | inr f ↦ let same = lawful.connected a b f e in λ i. insert less (same i) (sym same i ∷ ys)
    ]
  ]

  -- Two insertions commute.
  insert-insert :
      (a b : A) (ys : List A) → insert less a (insert less b ys) ≡ insert less b (insert less a ys)
  insert-insert a b [] =
      rw (insert-nil less a, insert-nil less b)
        (insert-two a b [] (insert-nil less a) (insert-nil less b))
  insert-insert a b (y ∷ ys) = elim (Bool-cases (less y a)) [
    | inl e ↦ elim (Bool-cases (less y b)) [
      | inl f ↦
          rw
            (
              insert-past less a y ys e,
              insert-past less b y ys f,
              insert-past less a y (insert less b ys) e,
              insert-past less b y (insert less a ys) f,
            )
            (ap (◌∷◌ y) (insert-insert a b ys))
      | inr f ↦
          rw
            (
              insert-past less a y ys e,
              insert-here less b y ys f,
              insert-past less a b (y ∷ ys) (less_below a b y e f),
              insert-past less a y ys e,
              insert-here less b y (insert less a ys) f,
            )
            refl
    ]
    | inr e ↦ elim (Bool-cases (less y b)) [
      | inl f ↦
          rw
            (
              insert-here less a y ys e,
              insert-past less b y ys f,
              insert-here less a y (insert less b ys) e,
              insert-past less b a (y ∷ ys) (less_below b a y f e),
              insert-past less b y ys f,
            )
            refl
      | inr f ↦
          let here-a = insert-here less a y ys e in
          let here-b = insert-here less b y ys f in
          rw (here-a, here-b) (insert-two a b (y ∷ ys) here-a here-b)
    ]
  ]

  -- Sorting forgets the order of its input.
  pub sort-of_Permᴰ : (xs ys : List A) → Permᴰ xs ys → sort less xs ≡ sort less ys
  unfolding sort
  sort-of_Permᴰ _ _ Permᴰ.nil = refl
  sort-of_Permᴰ _ _ (Permᴰ.cons {a} {b} {l₁} {l₂} e p) =
      λ i. insert less (e i) (sort-of_Permᴰ l₁ l₂ p i)
  sort-of_Permᴰ _ _ (Permᴰ.swap {a} {b} {a'} {b'} {l} e f) =
      rw (e, f) (insert-insert b' a' (sort less l))
  sort-of_Permᴰ _ _ (Permᴰ.trans {l₁} {l₂} {l₃} p q) = sort-of_Permᴰ l₁ l₂ p ∙ sort-of_Permᴰ l₂ l₃ q

  -- The comparison by a key that determines the entry.
  pub LawfulLess-on {κ} :
      {B : Type κ} (key : B → A)
      → ((a b : B) → key a ≡ key b → a ≡ b)
      → LawfulLess (λ a b. less (key a) (key b))
  LawfulLess-on key determines = record {
    asym = λ a b h. lawful.asym (key a) (key b) h;
    trans = λ a b c h k. lawful.trans (key a) (key b) (key c) h k;
    connected = λ a b h k. determines a b (lawful.connected (key a) (key b) h k);
  }

-- What does not depend on the order of a list.
pub All-Permᴰ {ℓ κ} :
    {A : Type ℓ} (P : A → Type κ) {xs ys : List A} → Permᴰ xs ys → All P ys → All P xs
All-Permᴰ P Permᴰ.nil h = tt
All-Permᴰ P (Permᴰ.cons e p) h = (subst P (sym e) h.0, All-Permᴰ P p h.1)
All-Permᴰ P (Permᴰ.swap e f) h = (subst P (sym e) h.1.0, (subst P (sym f) h.0, h.1.1))
All-Permᴰ P (Permᴰ.trans p q) h = All-Permᴰ P p (All-Permᴰ P q h)

pub length-Permᴰ {ℓ} : {A : Type ℓ} {xs ys : List A} → Permᴰ xs ys → length xs ≡ length ys
length-Permᴰ Permᴰ.nil = refl
length-Permᴰ (Permᴰ.cons e p) = ap suc (length-Permᴰ p)
length-Permᴰ (Permᴰ.swap e f) = refl
length-Permᴰ (Permᴰ.trans p q) = length-Permᴰ p ∙ length-Permᴰ q

pub count-Permᴰ {ℓ} :
    {A : Type ℓ} (p : A → Bool) {xs ys : List A} → Permᴰ xs ys → count p xs ≡ count p ys
count-Permᴰ p Permᴰ.nil = refl
count-Permᴰ p (Permᴰ.cons {l₁} {l₂} e q) =
    (λ i. if p (e i) then suc (count p l₁) else count p l₁) ∙ ground (arith, count-Permᴰ p q)
count-Permᴰ p (Permᴰ.swap e f) = rw (e, f) (ground arith)
count-Permᴰ p (Permᴰ.trans q r) = count-Permᴰ p q ∙ count-Permᴰ p r
