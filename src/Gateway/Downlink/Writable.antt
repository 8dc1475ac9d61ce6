-- ===== src/Gateway/Downlink/Writable.antt =====
-- The bindings that `selectDownlink` can choose.
use vpp_backend.Prelude.{
  ℕ, suc, pos, leb_ℤ, ◌≡◌, refl, sym, ap, subst, ◌∙◌, inl, inr, String, is_blank, Bool, true, false,
  not, ◌||◌, Option, none, some, Result, ok, List, [], ◌∷◌, if◌then◌else◌, get_elem?, Bool-cases,
  Option-cases, err_ne_ok, ok_inj, arith,
}
use vpp_backend.Contracts.{allows_write}
use vpp_backend.Gateway.Floats.{Floats, finite}
use vpp_backend.Gateway.Binding.{Binding}
use vpp_backend.Gateway.Downlink.{
  RejectReason, is_none, writable_metric, safety_well_formed, reject_downlink,
}
use vpp_backend.Gateway.Downlink.Selection.{is_named, usable, Selected}

module _ {F : Type 0} (f : Floats F) where
  pub if-none :
      (test : Bool) (y : RejectReason) (r : Option RejectReason)
      → (if test then some y else r) ≡ none
      → (test ≡ false) × (r ≡ none)
  if-none true y r e = absurd (some_ne_none e)
    where
      some_ne_none : some y ≡ none → ⊥
      some_ne_none h = cc
  if-none false y r e = (refl, e)

  -- A binding that may be written.
  pub record IsWritable (b : Binding F) : Type 0 where
    pub enabled : b.enabled ≡ true
    pub writes : allows_write b.access_mode ≡ true
    pub revised : leb_ℤ b.revision (pos 0) ≡ false
    pub addressed : is_blank b.external_address ≡ false
    pub scaled :
        (finite f b.scale ≡ true) × (f.eq b.scale f.zero ≡ false) × (finite f b.offset ≡ true)
    pub limits : safety_well_formed f b.safety ≡ true

  pub reject_downlink-IsWritable : (b : Binding F) → reject_downlink f b ≡ none → IsWritable b
  unfolding reject_downlink
  reject_downlink-IsWritable b e =
      let (h₁, e₁) = if-none (not b.enabled) _ _ e in
      let (h₂, e₂) = if-none (not (allows_write b.access_mode)) _ _ e₁ in
      let (h₃, e₃) = if-none (leb_ℤ b.revision (pos 0)) _ _ e₂ in
      let (h₄, e₄) = if-none (is_blank b.external_address) _ _ e₃ in
      let (h₅, e₅) =
        if-none (not (finite f b.scale) || f.eq b.scale f.zero || not (finite f b.offset)) _ _ e₄ in
      let (h₆, e₆) = if-none (is_none (writable_metric b.metric_id)) _ _ e₅ in
      let (h₇, e₇) = if-none (not (safety_well_formed f b.safety)) _ _ e₆ in
      record {
        enabled = ground arith;
        writes = ground arith;
        revised = h₃;
        addressed = h₄;
        scaled = (ground arith, ground arith, ground arith);
        limits = ground arith;
      }

  -- The binding at some place that is named and that nothing speaks against.
  abbrev IsAt : String → List (Binding F) → Binding F → Type 0
  IsAt id bs b =
      (j : ℕ) × (get_elem? bs j ≡ some b) × (is_named f id b ≡ true) × (reject_downlink f b ≡ none)

  later :
      (id : String) (c : Binding F) (bs : List (Binding F)) (b : Binding F)
      → IsAt id bs b
      → IsAt id (c ∷ bs) b
  later id c bs b (j, at, n, r) = (suc j, at, n, r)

  pub usable-member :
      (id : String) (bs : List (Binding F)) {b : Binding F} {more : List (Binding F)}
      → usable f id bs ≡ b ∷ more
      → IsAt id bs b
  unfolding usable
  usable-member id [] e = absurd (nil_ne_cons e)
    where
      nil_ne_cons : {A : Type 0} {x : A} {xs : List A} → [] ≡ x ∷ xs → ⊥
      nil_ne_cons h = cc
  usable-member id (c ∷ bs) {b} {more} e = elim (Bool-cases (is_named f id c)) [
    | inr other ↦ later id c bs b (usable-member id bs (rw (other, usable) at e))
    | inl named ↦ elim (Option-cases (reject_downlink f c)) [
      | inr (x, bad) ↦ later id c bs b (usable-member id bs (rw (named, usable, bad) at e))
      | inl good ↦
          let same : c ≡ b = cons_inj (rw (named, usable, good) at e) in
          (
            0,
            ap some same,
            subst (λ d. is_named f id d ≡ true) same named,
            subst (λ d. reject_downlink f d ≡ none) same good,
          )
    ]
  ]
    where
      cons_inj : {A : Type 0} {x y : A} {xs ys : List A} → x ∷ xs ≡ y ∷ ys → x ≡ y
      cons_inj h = cc

  pub Selected-ok :
      (id : String) (bs u : List (Binding F)) (r : Result RejectReason (Binding F)) (b : Binding F)
      → Selected f id bs u r
      → r ≡ ok b
      → u ≡ b ∷ []
  Selected-ok id bs [] r b (inl (m, h)) e = absurd (err_ne_ok (sym h ∙ e))
  Selected-ok id bs [] r b (inr (x, h, k)) e = absurd (err_ne_ok (sym h ∙ e))
  Selected-ok id bs (c ∷ []) r b h e = ap (λ d. d ∷ []) (ok_inj (sym h ∙ e))
  Selected-ok id bs (c ∷ d ∷ more) r b h e = absurd (err_ne_ok (sym h ∙ e))
