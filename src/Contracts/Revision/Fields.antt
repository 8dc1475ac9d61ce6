-- ===== src/Contracts/Revision/Fields.antt =====
-- A list of length-prefixed fields determines the fields.
use mathlib.Core.List.{append_assoc, append-nil}
use vpp_backend.Prelude.{ℕ, ◌≡◌, refl, sym, ap, ◌∙◌, List, [], ◌∷◌, ◌++◌, length, All, arith}
use vpp_backend.Prelude.Bytes.{Bytes}
use vpp_backend.Prelude.Decimal.{itoa, itoa_inj, itoa-IsDigit, IsDigit}
use vpp_backend.Contracts.Revision.{append_len_prefixed}

pub cons_inj {ℓ} : {A : Type ℓ} {x y : A} {xs ys : List A} → x ∷ xs ≡ y ∷ ys → (x ≡ y) × (xs ≡ ys)
cons_inj e = (cc, cc)

-- One field.
field : Bytes → Bytes
field v = itoa (length v) ++ (58 ∷ (v ++ (10 ∷ [])))

unfoldable pub fields : List Bytes → Bytes
unfolding field
fields [] = []
fields (v ∷ vs) = field v ++ fields vs

pub fields-append : (vs ws : List Bytes) → fields (vs ++ ws) ≡ fields vs ++ fields ws
unfolding fields
fields-append [] ws = refl
fields-append (v ∷ vs) ws =
    ap (λ r. field v ++ r) (fields-append vs ws)
    ∙ sym (append_assoc (field v) (fields vs) (fields ws))

-- Digits up to a colon are determined by the text.
digits-colon :
    (a b : Bytes) {r s : Bytes}
    → All IsDigit a
    → All IsDigit b
    → a ++ (58 ∷ r) ≡ b ++ (58 ∷ s)
    → (a ≡ b) × (r ≡ s)
digits-colon [] [] ha hb e = (refl, (cons_inj e).1)
digits-colon [] (y ∷ b) ha hb e = let first = (cons_inj e).0 in absurd (omega arith)
digits-colon (x ∷ a) [] ha hb e = let first = (cons_inj e).0 in absurd (omega arith)
digits-colon (x ∷ a) (y ∷ b) ha hb e =
    let (first, rest) = cons_inj e in
    let (same, tails) = digits-colon a b ha.1 hb.1 rest in (λ i. first i ∷ same i, tails)

-- Texts of one length before a rest.
append_inj {ℓ} :
    {A : Type ℓ} (a b : List A) {r s : List A}
    → length a ≡ length b
    → a ++ r ≡ b ++ s
    → (a ≡ b) × (r ≡ s)
append_inj [] [] h e = (refl, e)
append_inj [] (y ∷ b) h e = absurd (omega arith)
append_inj (x ∷ a) [] h e = absurd (omega arith)
append_inj (x ∷ a) (y ∷ b) h e =
    let (first, rest) = cons_inj e in
    let (same, tails) = append_inj a b (omega arith) rest in (λ i. first i ∷ same i, tails)

field-append : (v r : Bytes) → field v ++ r ≡ itoa (length v) ++ (58 ∷ (v ++ (10 ∷ r)))
unfolding field
field-append v r =
    append_assoc (itoa (length v)) _ r
    ∙ ap (λ t. itoa (length v) ++ (58 ∷ t)) (append_assoc v (10 ∷ []) r)

append-ne-nil : (a : Bytes) (x : ℕ) (r : Bytes) → a ++ (x ∷ r) ≡ [] → ⊥
append-ne-nil [] x r e = cc
append-ne-nil (y ∷ a) x r e = cc

field-split : (v w : Bytes) {r s : Bytes} → field v ++ r ≡ field w ++ s → (v ≡ w) × (r ≡ s)
field-split v w {r} {s} e =
    let flat = sym (field-append v r) ∙ e ∙ field-append w s in
    let (digits, rest) =
      digits-colon _ _ (itoa-IsDigit (length v)) (itoa-IsDigit (length w)) flat in
    let (same, tails) = append_inj v w (itoa_inj digits) rest in (same, (cons_inj tails).1)

field-ne-nil : (v r : Bytes) → field v ++ r ≡ [] → ⊥
field-ne-nil v r e = append-ne-nil _ 58 _ (sym (field-append v r) ∙ e)

pub fields_inj : (vs ws : List Bytes) → fields vs ≡ fields ws → vs ≡ ws
unfolding fields
fields_inj [] [] e = refl
fields_inj [] (w ∷ ws) e = absurd (field-ne-nil w (fields ws) (sym e))
fields_inj (v ∷ vs) [] e = absurd (field-ne-nil v (fields vs) e)
fields_inj (v ∷ vs) (w ∷ ws) e =
    let (first, rest) = field-split v w e in λ i. first i ∷ fields_inj vs ws rest i

pub append_len_prefixed-fields :
    (buf v : Bytes) → append_len_prefixed buf v ≡ buf ++ fields (v ∷ [])
unfolding append_len_prefixed fields field
append_len_prefixed-fields buf v = simp (append_assoc, append-nil)
