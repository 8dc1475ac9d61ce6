-- ===== src/Gateway/Cache/Races.antt =====
-- A list of bindings that races an invalidation: what `store` refuses, and what it does not.
use vpp_backend.Prelude.{
  ℕ, pos, ◌≤ℤ◌, ◌+◌, ◌%◌, ◌≤◌, ◌<◌, ◌≡◌, refl, String, str_eq_iff, is_empty_text, true, false, List,
  [], ◌∷◌, ◌++◌, none, some, length, arith, ◌==◌, if◌then◌else◌,
}
use vpp_backend.Gateway.Binding.{Snapshot}
use vpp_backend.Gateway.Cache.{
  lookup, Time, CuKey, Cache, generations, store, invalidate_cu, invalidate_point,
  invalidate_tenant, holds_point,
}

-- An operation that changes the cache.
pub data Op (F : Type 0) : Type 0 where
  invalidates_cu : String → String → Op F
  invalidates_point : String → String → Op F
  invalidates_tenant : String → Op F
  stores : CuKey → ℕ × ℕ → Snapshot F → Time → Op F

abbrev word : ℕ
word = 18446744073709551616

-- From `m` to `n` by `d` increments of a word.
abbrev Steps : ℕ → ℕ → ℕ → Type 0
Steps d m n = n ≡ (m + d) % word

-- Whether the counter has moved.
abbrev pub moved : ℕ → ℕ → ℕ
moved m n = if m == n then 0 else 1

module _ {F : Type 0} where
  unfoldable pub apply : Op F → Cache F → Cache F
  unfolding invalidate_cu invalidate_point invalidate_tenant store
  apply (invalidates_cu tenant cu) c = invalidate_cu tenant cu c
  apply (invalidates_point tenant point) c = invalidate_point tenant point c
  apply (invalidates_tenant tenant) c = invalidate_tenant tenant c
  apply (stores key g snap at) c = (store key g snap at c).0

  unfoldable pub run : List (Op F) → Cache F → Cache F
  unfolding apply
  run [] c = c
  run (o ∷ os) c = run os (apply o c)

  -- The invalidations that name an entry: its CU, its tenant, or a point that it holds just then.
  abbrev pub Hits : CuKey → Cache F → Op F → Type 0
  Hits key c (invalidates_cu tenant cu) =
      (tenant ≡ key.tenant)
      × (cu ≡ key.cu)
      × (is_empty_text tenant ≡ false)
      × (is_empty_text cu ≡ false)
  Hits key c (invalidates_point tenant point) =
      (tenant ≡ key.tenant)
      × (is_empty_text tenant ≡ false)
      × (is_empty_text point ≡ false)
      × (holds_point (c.entries key) point ≡ true)
  Hits key c (invalidates_tenant tenant) = (tenant ≡ key.tenant) × (is_empty_text tenant ≡ false)
  Hits key c (stores k g snap at) = ⊥

  pub record Moves (key : CuKey) (d e : ℕ) (c c' : Cache F) : Type 0 where
    pub by_cu : Steps d (c.epoch key) (c'.epoch key)
    pub by_tenant : Steps e (c.tenant_epoch key.tenant) (c'.tenant_epoch key.tenant)

  abbrev pub Small : CuKey → Cache F → Type 0
  Small key c = (c.epoch key < word) × (c.tenant_epoch key.tenant < word)

  pub apply-Moves :
      (key : CuKey) (c : Cache F) (o : Op F)
      → Small key c
      → Moves key
          (moved (c.epoch key) ((apply o c).epoch key))
          (moved (c.tenant_epoch key.tenant) ((apply o c).tenant_epoch key.tenant))
          c
          (apply o c)
  unfolding apply
  apply-Moves key c (invalidates_cu tenant cu) s = ground arith
  apply-Moves key c (invalidates_point tenant point) s = ground arith
  apply-Moves key c (invalidates_tenant tenant) s = ground arith
  apply-Moves key c (stores k g snap at) s = ground arith

  -- A hit moves one of the two epochs.
  pub hit_moves :
      (key : CuKey) (c : Cache F) (o : Op F)
      → Small key c
      → Hits key c o
      → 1
        ≤ moved (c.epoch key) ((apply o c).epoch key)
          + moved (c.tenant_epoch key.tenant) ((apply o c).tenant_epoch key.tenant)
  unfolding apply
  hit_moves key c (invalidates_cu tenant cu) s h =
      ground (arith, str_eq_iff key.tenant tenant, str_eq_iff key.cu cu)
  hit_moves key c (invalidates_point tenant point) s h =
      ground (arith, str_eq_iff key.tenant tenant)
  hit_moves key c (invalidates_tenant tenant) s h = ground (arith, str_eq_iff key.tenant tenant)
  hit_moves key c (stores k g snap at) s h = absurd h

  pub run-Moves :
      (key : CuKey) (os : List (Op F)) (c : Cache F)
      → Small key c
      → (d : ℕ) × (e : ℕ) × (d ≤ length os) × (e ≤ length os) × Moves key d e c (run os c)
  unfolding run
  run-Moves key [] c s = (0, 0, omega arith, omega arith, omega arith)
  run-Moves key (o ∷ os) c s =
      let m = apply-Moves key c o s in
      let (d, e, dl, el, rest) = run-Moves key os (apply o c) (omega arith) in
      (
        d + moved (c.epoch key) ((apply o c).epoch key),
        e + moved (c.tenant_epoch key.tenant) ((apply o c).tenant_epoch key.tenant),
        ground arith,
        ground arith,
        ground arith,
      )

  pub run-append : (os ps : List (Op F)) (c : Cache F) → run (os ++ ps) c ≡ run ps (run os c)
  unfolding run
  run-append [] ps c = refl
  run-append (o ∷ os) ps c = run-append os ps (apply o c)

  -- Counters that moved by less than a word, and one of them at all, fail the store's test.
  pub moved_refused :
      (key : CuKey) (c c' : Cache F) (d e : ℕ) (snap : Snapshot F) (at : Time)
      → Small key c
      → Moves key d e c c'
      → d < word
      → e < word
      → 1 ≤ d + e
      → store key (generations key c) snap at c' ≡ (c', false)
  unfolding store generations
  moved_refused key c c' d e snap at s m dl el h = ground arith

  -- A list of bindings asked for at `c`, whose epochs are 64-bit words, is not stored if an invalidation that names its CU, its
  -- tenant, or a point of the entry cached just then comes in between, among any fewer than 2^64
  -- operations of other callers: the cache stays as it is.
  pub racing_store-refused :
      (key : CuKey) (c : Cache F) (before after : List (Op F)) (o : Op F) (snap : Snapshot F)
      (at : Time)
      → Small key c
      → Hits key (run before c) o
      → length before + length after < 18446744073709551615
      → store key (generations key c) snap at (run (before ++ o ∷ after) c)
        ≡ (run (before ++ o ∷ after) c, false)
  unfolding run
  racing_store-refused key c before after o snap at s h few =
      let (d₁, e₁, dl₁, el₁, m₁) = run-Moves key before c s in
      let c₁ = run before c in
      let s₁ : Small key c₁ = (omega arith, omega arith) in
      let m₂ = apply-Moves key c₁ o s₁ in
      let c₂ = apply o c₁ in
      let (d₃, e₃, dl₃, el₃, m₃) = run-Moves key after c₂ (omega arith, omega arith) in
      let d₂ = moved (c₁.epoch key) (c₂.epoch key) in
      let e₂ = moved (c₁.tenant_epoch key.tenant) (c₂.tenant_epoch key.tenant) in
      rw (run-append before (o ∷ after) c) (
        moved_refused key c (run after c₂) (d₁ + d₂ + d₃) (e₁ + e₂ + e₃) snap at s
          (omega (arith, m₁, m₂, m₃)) (ground arith) (ground arith)
          (omega (arith, hit_moves key c₁ o s₁ h)))

  -- While nothing is cached for a CU and the TTL is not negative, an invalidation by point leaves its generations alone: a list
  -- of bindings that was asked for before it is stored after it and served as a cached copy.
  pub invalidate_point-unseen :
      (key : CuKey) (c : Cache F) (point : String) (snap : Snapshot F) (at : Time)
      → c.entries key ≡ none
      → pos 0 ≤ℤ c.ttl
      → let (c', kept) =
          store key (generations key c) snap at (invalidate_point key.tenant point c) in
        (kept ≡ true) × (lookup key at c'.ttl c' ≡ some snap)
  unfolding store generations invalidate_point lookup
  invalidate_point-unseen key c point snap at e h =
      ground (arith, str_eq_iff key.tenant key.tenant, str_eq_iff key.cu key.cu)
