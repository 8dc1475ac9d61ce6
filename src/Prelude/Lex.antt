-- ===== src/Prelude/Lex.antt =====
-- The orders that `less` functions compare by: one field, and where it is equal the next.
use mathlib.Core.Path.{◌≡◌, sym, ap, subst, ◌∙◌}
use mathlib.Core.Bool.{Bool, true, false, true≢false}
use mathlib.Core.Logic.{◌⊎◌, inl, inr}
use native.Mathlib.Omega.{arith}
use vpp_backend.Prelude.Tests.{if◌then◌else◌, Bool-cases}
use vpp_backend.Prelude.Int.{ℤ, pos, negsuc, ltb_ℤ}
use vpp_backend.Prelude.Sort.{LawfulLess}
use vpp_backend.Prelude.Bytes.{
  Bytes, bytes_eq, bytes_eq_sound, bytes_eq_refl, bytes_lt, bytes_lt-LawfulLess,
}

-- `if a.x != b.x { return a.x < b.x }` before another comparison.
abbrev pub lex {ℓ} : {B : Type ℓ} → (B → B → Bool) → Bytes × B → Bytes × B → Bool
lex less (x, a) (y, b) = if bytes_eq x y then less a b else bytes_lt x y

ltb_ℤ-connected : (a b : ℤ) → ltb_ℤ a b ≡ false → ltb_ℤ b a ≡ false → a ≡ b
ltb_ℤ-connected (pos a) (pos b) h k = ap pos (ground arith)
ltb_ℤ-connected (pos a) (negsuc b) h k = absurd (ground arith)
ltb_ℤ-connected (negsuc a) (pos b) h k = absurd (ground arith)
ltb_ℤ-connected (negsuc a) (negsuc b) h k = ap negsuc (ground arith)

pub ltb_ℤ-LawfulLess : LawfulLess ltb_ℤ
ltb_ℤ-LawfulLess = record {
  asym = λ a b h. ground arith;
  trans = λ a b c h k. ground arith;
  connected = ltb_ℤ-connected;
}

module _ {ℓ} {B : Type ℓ} {less : B → B → Bool} (lawful : LawfulLess less) where
  irrefl : (x y : Bytes) → x ≡ y → bytes_lt x y ≡ true → ⊥
  irrefl x y same h =
      let back = bytes_lt-LawfulLess.asym x y h in
      true≢false (sym h ∙ (λ i. bytes_lt (same i) (sym same i)) ∙ back)

  lex-cases :
      (x y : Bytes) (a b : B)
      → lex less (x, a) (y, b) ≡ true
      → ((x ≡ y) × (less a b ≡ true)) ⊎ (bytes_lt x y ≡ true)
  lex-cases x y a b h = elim (Bool-cases (bytes_eq x y)) [
    | inl e ↦ inl (bytes_eq_sound x y e, rw e at h)
    | inr e ↦ inr (rw e at h)
  ]

  lex-first : (x y : Bytes) (a b : B) → bytes_lt x y ≡ true → lex less (x, a) (y, b) ≡ true
  lex-first x y a b h = elim (Bool-cases (bytes_eq x y)) [
    | inl e ↦ absurd (irrefl x y (bytes_eq_sound x y e) h)
    | inr e ↦ rw e h
  ]

  lex-second : (x y : Bytes) (a b : B) → x ≡ y → less a b ≡ true → lex less (x, a) (y, b) ≡ true
  lex-second x y a b same h =
      let e = subst (λ z. bytes_eq x z ≡ true) same (bytes_eq_refl x) in rw e h

  lex_trans : (p q r : Bytes × B) → lex less p q ≡ true → lex less q r ≡ true → lex less p r ≡ true
  lex_trans (x, a) (y, b) (z, c) h k = elim (lex-cases x y a b h) [
    | inl (e, f) ↦ elim (lex-cases y z b c k) [
      | inl (g, j) ↦ lex-second x z a c (e ∙ g) (lawful.trans a b c f j)
      | inr g ↦ lex-first x z a c (subst (λ w. bytes_lt w z ≡ true) (sym e) g)
    ]
    | inr f ↦ elim (lex-cases y z b c k) [
      | inl (g, j) ↦ lex-first x z a c (subst (λ w. bytes_lt x w ≡ true) g f)
      | inr g ↦ lex-first x z a c (bytes_lt-LawfulLess.trans x y z f g)
    ]
  ]

  lex-clash : (p q : Bytes × B) → lex less p q ≡ true → lex less q p ≡ true → ⊥
  lex-clash (x, a) (y, b) h k = elim (lex-cases x y a b h) [
    | inl (e, f) ↦ elim (lex-cases y x b a k) [
      | inl (g, j) ↦ true≢false (sym j ∙ lawful.asym a b f)
      | inr g ↦ irrefl y x (sym e) g
    ]
    | inr f ↦ elim (lex-cases y x b a k) [
      | inl (g, j) ↦ irrefl x y (sym g) f
      | inr g ↦ true≢false (sym g ∙ bytes_lt-LawfulLess.asym x y f)
    ]
  ]

  lex-asym : (p q : Bytes × B) → lex less p q ≡ true → lex less q p ≡ false
  lex-asym p q h = elim (Bool-cases (lex less q p)) [
    | inl k ↦ absurd (lex-clash p q h k)
    | inr k ↦ k
  ]

  -- Where `lex` does not place a pair before another, no first field precedes.
  lex-not-first : (x y : Bytes) (a b : B) → lex less (x, a) (y, b) ≡ false → bytes_lt x y ≡ false
  lex-not-first x y a b h = elim (Bool-cases (bytes_lt x y)) [
    | inl e ↦ absurd (true≢false (sym (lex-first x y a b e) ∙ h))
    | inr e ↦ e
  ]

  lex-not-second :
      (x y : Bytes) (a b : B) → x ≡ y → lex less (x, a) (y, b) ≡ false → less a b ≡ false
  lex-not-second x y a b same h = elim (Bool-cases (less a b)) [
    | inl e ↦ absurd (true≢false (sym (lex-second x y a b same e) ∙ h))
    | inr e ↦ e
  ]

  lex-connected : (p q : Bytes × B) → lex less p q ≡ false → lex less q p ≡ false → p ≡ q
  lex-connected (x, a) (y, b) h k =
      let same =
        bytes_lt-LawfulLess.connected x y (lex-not-first x y a b h) (lex-not-first y x b a k) in
      let rest =
        lawful.connected a b (lex-not-second x y a b same h)
          (lex-not-second y x b a (sym same) k) in
      λ i. (same i, rest i)

  pub lex-LawfulLess : LawfulLess (lex less)
  lex-LawfulLess = record { asym = lex-asym; trans = lex_trans; connected = lex-connected }
