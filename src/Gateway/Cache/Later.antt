-- ===== src/Gateway/Cache/Later.antt =====
-- Lookups after an invalidation, while other callers go on.
use vpp_backend.Prelude.{
  ℕ, suc, ℤ, ◌≤◌, ◌<◌, ◌+◌, ◌≡◌, ◌∙◌, refl, sym, subst, ap, str_eq_iff, true, false, Bool-cases,
  inl, inr, List, [], ◌∷◌, ◌++◌, none, length, length-append, All, arith,
}
use vpp_backend.Gateway.Cache.{CuKey, Cache, Time, lookup, generations, store, same_key}
use vpp_backend.Gateway.Binding.{Snapshot}
use vpp_backend.Gateway.Cache.Races.{
  Op, apply, run, run-append, Hits, Moves, Small, apply-Moves, hit_moves, run-Moves, moved,
  moved_refused,
}

same_key-eq : (k l : CuKey) → same_key k l ≡ true → l ≡ k
same_key-eq k l h =
    let tenants = (str_eq_iff k.tenant l.tenant).0 (ground arith) in
    let cus = (str_eq_iff k.cu l.cu).0 (ground arith) in cc

-- A store for another key leaves the entry alone.
store-other :
    {F : Type 0} (d : Cache F) (key k : CuKey) (g : ℕ × ℕ) (snap : Snapshot F) (at : Time)
    → d.entries key ≡ none
    → same_key key k ≡ false
    → (store k g snap at d).0.entries key ≡ none
unfolding store
store-other d key k g snap at e other = ground (arith, e, other)

apply_hit-none :
    {F : Type 0} (key : CuKey) (d : Cache F) (o : Op F)
    → Hits key d o
    → (apply o d).entries key ≡ none
unfolding apply
apply_hit-none key d (Op.invalidates_cu tenant cu) h =
    ground (arith, str_eq_iff key.tenant tenant, str_eq_iff key.cu cu)
apply_hit-none key d (Op.invalidates_point tenant point) h =
    ground (arith, str_eq_iff key.tenant tenant)
apply_hit-none key d (Op.invalidates_tenant tenant) h = ground (arith, str_eq_iff key.tenant tenant)
apply_hit-none key d (Op.stores k g snap at) h = absurd h

lookup-none :
    {F : Type 0} (key : CuKey) (now : Time) (age : ℤ) (d : Cache F)
    → d.entries key ≡ none
    → lookup key now age d ≡ none
unfolding lookup
lookup-none key now age d e = rw (e, lookup) refl

module _ {F : Type 0} (key : CuKey) (c : Cache F) (before : List (Op F)) where
  -- Generations that were read at `c` or after some of the operations `before`.
  abbrev pub ReadBefore : ℕ × ℕ → Type 0
  ReadBefore g =
      (p : List (Op F)) × (q : List (Op F)) × (before ≡ p ++ q) × (g ≡ generations key (run p c))

  -- What the operation stores for the key, if it does, was asked for by then.
  abbrev pub IsOld : Op F → Type 0
  IsOld (Op.stores k g snap at) = k ≡ key → ReadBefore g
  IsOld _ = Unit

  -- Since any of those reads the counters moved, and by no more than the operations allow.
  abbrev Past : ℕ → Cache F → Type 0
  Past m d =
      (p q : List (Op F))
      → before ≡ p ++ q
      → (x : ℕ) × (y : ℕ) × (x ≤ length q + m)
        × (y ≤ length q + m)
        × (1 ≤ x + y)
        × Moves key x y (run p c) d

  module _ (small : Small key c) where
    run-Small : (os : List (Op F)) → Small key (run os c)
    run-Small os = let (x, y, _, _, m) = run-Moves key os c small in (omega arith, omega arith)

    hit-Past : (o : Op F) → Hits key (run before c) o → Past 1 (apply o (run before c))
    hit-Past o h p q e =
        let at : run before c ≡ run q (run p c) = ap (λ os. run os c) e ∙ run-append p q c in
        let s = run-Small before in
        let m₂ = apply-Moves key (run before c) o s in
        let hit = hit_moves key (run before c) o s h in
        let (x, y, xl, yl, m₁) = run-Moves key q (run p c) (run-Small p) in
        let m₁' = subst (Moves key x y (run p c)) (sym at) m₁ in
        let x' = moved ((run before c).epoch key) ((apply o (run before c)).epoch key) in
        let y' =
          moved ((run before c).tenant_epoch key.tenant)
            ((apply o (run before c)).tenant_epoch key.tenant) in
        (x + x', y + y', ground arith, ground arith, omega (arith, hit), omega (arith, m₁', m₂))

    step-Past : (m : ℕ) (d : Cache F) (o : Op F) → Small key d → Past m d → Past (suc m) (apply o d)
    step-Past m d o s past p q e =
        let (x, y, xl, yl, some_move, m₁) = past p q e in
        let m₂ = apply-Moves key d o s in
        let x' = moved (d.epoch key) ((apply o d).epoch key) in
        let y' = moved (d.tenant_epoch key.tenant) ((apply o d).tenant_epoch key.tenant) in
        (x + x', y + y', ground arith, ground arith, omega arith, omega (arith, m₁, m₂))

    step-Small : (d : Cache F) (o : Op F) → Small key d → Small key (apply o d)
    step-Small d o s = let m = apply-Moves key d o s in (omega arith, omega arith)

    -- An old list is not stored, and no other operation adds an entry for the key.
    step-none :
        (m : ℕ) (d : Cache F) (o : Op F)
        → length before + m < 18446744073709551616
        → Past m d
        → IsOld o
        → d.entries key ≡ none
        → (apply o d).entries key ≡ none
    unfolding apply
    step-none m d (Op.invalidates_cu tenant cu) few past old e = ground arith
    step-none m d (Op.invalidates_point tenant point) few past old e = ground arith
    step-none m d (Op.invalidates_tenant tenant) few past old e = ground arith
    step-none m d (Op.stores k g snap at) few past old e = elim (Bool-cases (same_key key k)) [
      | inr other ↦ store-other d key k g snap at e other
      | inl same ↦
          let at_key = same_key-eq key k same in
          let (p, q, split, read) = old at_key in
          let (x, y, xl, yl, some_move, moves) = past p q split in
          let short = length-append {0} p q in
          let whole = ap length split in
          let refused =
            moved_refused key (run p c) d x y snap at (run-Small p) moves (omega arith)
              (omega arith) some_move in
          subst (λ h. (store k h snap at d).0.entries key ≡ none) (sym read)
            (subst (λ l. (store l (generations key (run p c)) snap at d).0.entries key ≡ none)
              (sym at_key) (rw refused e))
    ]

    run-none :
        (os : List (Op F)) (m : ℕ) (d : Cache F)
        → length before + m + length os < 18446744073709551616
        → Small key d
        → Past m d
        → All IsOld os
        → d.entries key ≡ none
        → (run os d).entries key ≡ none
    unfolding run
    run-none [] m d few s past old e = e
    run-none (o ∷ os) m d few s past old e =
        run-none os (suc m) (apply o d) (omega arith) (step-Small d o s) (step-Past m d o s past)
          old.1 (step-none m d o (omega arith) past old.0 e)

    -- After an invalidation that hits a CU, which comes after the operations `before` on `c`, whose epochs
    -- are 64-bit words, every later lookup of the CU finds nothing, whatever age it allows, while in all
    -- fewer than 2^64 operations are done and each list that is stored for the CU after the invalidation
    -- had been asked for before it, at `c` or after some of `before`.
    pub lookup-run_hit :
        (after : List (Op F)) (o : Op F) (now : Time) (age : ℤ)
        → Hits key (run before c) o
        → All IsOld after
        → length before + length after < 18446744073709551615
        → lookup key now age (run (before ++ o ∷ after) c) ≡ none
    unfolding run
    lookup-run_hit after o now age h old few = rw (run-append before (o ∷ after) c) (
        lookup-none key now age (run after (apply o (run before c))) (
          run-none after 1 (apply o (run before c)) (omega arith)
            (step-Small (run before c) o (run-Small before)) (hit-Past o h) old
            (apply_hit-none key (run before c) o h)))
