-- ===== src/Prelude/Decimal.antt =====
-- Go's `strconv.Itoa` and `strconv.FormatInt` in base ten, and that a print determines its number.
use Prim.Native.Nat.{ℕ, zero, suc, ◌+◌, ◌-◌, ◌*◌, ◌/◌, ◌%◌, ◌≤◌}
use mathlib.Core.Path.{◌≡◌, refl, sym, ap, ◌∙◌}
use mathlib.Core.List.{[], ◌∷◌}
use native.Mathlib.Omega.{arith}
use vpp_backend.Prelude.Lists.{All}
use vpp_backend.Prelude.Int.{ℤ, pos, negsuc}
use vpp_backend.Prelude.Bytes.{Bytes}

-- The digits of `n` before `out`, with at most as many rounds as the fuel.
emit : ℕ → ℕ → Bytes → Bytes
emit zero n out = out
emit (suc fuel) zero out = out
emit (suc fuel) (suc m) out = emit fuel (suc m / 10) ((48 + suc m % 10) ∷ out)

-- `strconv.Itoa` of a length.
unfoldable pub itoa : ℕ → Bytes
unfolding emit
itoa zero = 48 ∷ []
itoa (suc m) = emit (suc m) (suc m) []

-- `strconv.FormatInt(v, 10)`; 45 is the minus sign.
unfoldable pub format_int : ℤ → Bytes
unfolding itoa
format_int (pos n) = itoa n
format_int (negsuc n) = 45 ∷ itoa (suc n)

abbrev pub IsDigit : ℕ → Type 0
IsDigit c = (48 ≤ c) × (c ≤ 57)

-- The number that digits spell behind `n`.
value : ℕ → Bytes → ℕ
value n [] = n
value n (c ∷ cs) = value (n * 10 + (c - 48)) cs

value-emit : (fuel n : ℕ) (out : Bytes) → n ≤ fuel → value 0 (emit fuel n out) ≡ value n out
unfolding emit value
value-emit zero n out h = ap (λ m. value m out) (omega arith)
value-emit (suc fuel) zero out h = refl
value-emit (suc fuel) (suc m) out h =
    value-emit fuel (suc m / 10) ((48 + suc m % 10) ∷ out) (omega arith)
    ∙ ap (λ k. value k out) (omega arith)

emit-IsDigit : (fuel n : ℕ) (out : Bytes) → All IsDigit out → All IsDigit (emit fuel n out)
unfolding emit
emit-IsDigit zero n out h = h
emit-IsDigit (suc fuel) zero out h = h
emit-IsDigit (suc fuel) (suc m) out h =
    emit-IsDigit fuel (suc m / 10) _ ((omega arith, omega arith), h)

pub itoa-IsDigit : (n : ℕ) → All IsDigit (itoa n)
unfolding itoa
itoa-IsDigit zero = ((omega arith, omega arith), tt)
itoa-IsDigit (suc m) = emit-IsDigit (suc m) (suc m) [] tt

value-itoa : (n : ℕ) → value 0 (itoa n) ≡ n
unfolding itoa value
value-itoa zero = refl
value-itoa (suc m) = value-emit (suc m) (suc m) [] (omega arith)

-- A print determines its number.
pub itoa_inj : {m n : ℕ} → itoa m ≡ itoa n → m ≡ n
itoa_inj {m} {n} h = sym (value-itoa m) ∙ ap (value 0) h ∙ value-itoa n

-- Digits do not start with a minus sign.
no_minus : (ds : Bytes) (rest : Bytes) → All IsDigit ds → ds ≡ 45 ∷ rest → ⊥
no_minus [] rest h e = cc
no_minus (d ∷ ds) rest h e = let first : d ≡ 45 = cc in omega arith

pub format_int_inj : (a b : ℤ) → format_int a ≡ format_int b → a ≡ b
unfolding format_int
format_int_inj (pos m) (pos n) e = ap pos (itoa_inj e)
format_int_inj (pos m) (negsuc n) e = absurd (no_minus _ _ (itoa-IsDigit m) e)
format_int_inj (negsuc m) (pos n) e = absurd (no_minus _ _ (itoa-IsDigit n) (sym e))
format_int_inj (negsuc m) (negsuc n) e =
    let same : suc m ≡ suc n = itoa_inj (cc) in ap negsuc (omega arith)
