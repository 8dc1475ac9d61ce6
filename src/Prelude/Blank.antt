-- ===== src/Prelude/Blank.antt =====
-- Texts that are not blank stay so when another is appended.
use Prim.Native.Char.{code}
use Prim.Native.String.{String, ◌++◌ as append}
use mathlib.Core.Path.{◌≡◌, refl, sym, subst, ◌∙◌}
use mathlib.Core.Logic.{inl, inr}
use mathlib.Core.Bool.{Bool, true, false, ◌&&◌}
use text.Mathlib.TextLemmas.{cons-append}
use vpp_backend.Prelude.Tests.{Bool-cases}
use vpp_backend.Prelude.Text.{is_space, is_empty_text, trim_left, trim_right, trim_space, is_blank}

-- Every character is a space.
abbrev all_space : String → Bool
all_space String.[] = true
all_space (String.◌∷◌ c s) = is_space (code c) && all_space s

trim_right-all_space : (s : String) → is_empty_text (trim_right s) ≡ all_space s
unfolding trim_right
trim_right-all_space String.[] = refl
trim_right-all_space (String.◌∷◌ c s) =
    let rest = trim_right-all_space s in
    elim (Bool-cases (is_space (code c))) [
      | inl h ↦ elim (Bool-cases (is_empty_text (trim_right s))) [
        | inl k ↦ rw (h, k) (sym k ∙ rest)
        | inr k ↦ rw (h, k) (sym k ∙ rest)
      ]
      | inr h ↦ rw h refl
    ]

is_blank-all_space : (s : String) → is_blank s ≡ all_space s
unfolding is_blank trim_space trim_left
is_blank-all_space String.[] = refl
is_blank-all_space (String.◌∷◌ c s) = elim (Bool-cases (is_space (code c))) [
  | inl h ↦ rw h (is_blank-all_space s)
  | inr h ↦ rw h (trim_right-all_space (String.◌∷◌ c s) ∙ rw h refl)
]

all_space-append : (s t : String) → all_space s ≡ false → all_space (append s t) ≡ false
all_space-append String.[] t h = cc
all_space-append (String.◌∷◌ c s) t h =
    subst (λ x. all_space x ≡ false) (sym (cons-append c s t))
      (elim (Bool-cases (is_space (code c))) [
        | inl k ↦ rw k (all_space-append s t (rw k at h))
        | inr k ↦ rw k refl
      ])

-- A text that starts with a text that is not blank is not blank.
pub is_blank-append : (s t : String) → is_blank s ≡ false → is_blank (append s t) ≡ false
is_blank-append s t h =
    is_blank-all_space (append s t) ∙ all_space-append s t (sym (is_blank-all_space s) ∙ h)
