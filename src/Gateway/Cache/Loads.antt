-- ===== src/Gateway/Cache/Loads.antt =====
-- What `Load` returns, by the origin that it names.
use vpp_backend.Prelude.{
  ℕ, zero, suc, ◌+◌, ◌<◌, ℤ, ◌≤ℤ◌, ◌-ℤ◌, ◌≡◌, refl, str_eq_iff, is_empty_text, true, ◌||◌, some,
  Result, ok, err, arith, inl, inr, Bool-cases, Option-cases,
}
use vpp_backend.Gateway.Binding.{Snapshot}
use vpp_backend.Gateway.Cache.{
  Time, CuKey, Origin, Entry, Cache, Reply, Surroundings, LoadError, lookup, generations, store,
  fall_back, attempts, load,
}

module _ {F : Type 0} where
  -- A copy that `lookup` returns is cached, and no older than the age that was asked for.
  lookup-some :
      (key : CuKey) (now : Time) (age : ℤ) (c : Cache F) {snap : Snapshot F}
      → lookup key now age c ≡ some snap
      → (item : Entry F) × (c.entries key ≡ some item)
        × (item.snapshot ≡ snap)
        × (now -ℤ item.stored_at ≤ℤ age)
  unfolding lookup
  lookup-some key now age c h = elim (Option-cases (c.entries key)) [
    | inl e ↦ cc (rw (e, lookup) at h)
    | inr (item, e) ↦ (item, e, ground arith, ground arith)
  ]

  -- The cached copy of a CU is this one, and no older than this.
  abbrev pub Holds : CuKey → Time → ℤ → Cache F → Snapshot F → Type 0
  Holds key now age c snap =
      (item : Entry F) × (c.entries key ≡ some item)
      × (item.snapshot ≡ snap)
      × (now -ℤ item.stored_at ≤ℤ age)

  -- Why a load may return a snapshot.
  abbrev pub Justified : Surroundings F → CuKey → Cache F → Cache F → Snapshot F → Origin → Type 0
  Justified s key c c' snap Origin.cache = Holds key s.now c.ttl c snap × (c' ≡ c)
  Justified s key c c' snap Origin.fallback = Holds key s.now c'.max_age c' snap
  Justified s key c c' snap Origin.fresh =
      (i : ℕ) × (i < 2)
      × (s.reply i ≡ Reply.listed snap)
      × (c'.entries key ≡ some (record { snapshot = snap; stored_at = s.stored_at i }))

  abbrev pub JustifiedResult :
      Surroundings F → CuKey → Cache F → Cache F → Result LoadError (Snapshot F × Origin) → Type 0
  JustifiedResult s key c c' (ok (snap, origin)) = Justified s key c c' snap origin
  JustifiedResult s key c c' (err e) = Unit

  fall_back-Justified :
      (s : Surroundings F) (key : CuKey) (c d : Cache F)
      → JustifiedResult s key c (fall_back s key d).cache (fall_back s key d).result
  unfolding fall_back
  fall_back-Justified s key c d = elim (Option-cases (lookup key s.now d.max_age d)) [
    | inl e ↦ rw (e, fall_back) tt
    | inr (snap, e) ↦ rw (e, fall_back) (lookup-some key s.now d.max_age d e)
  ]

  store-kept :
      (key : CuKey) (g : ℕ × ℕ) (snap : Snapshot F) (at : Time) (c : Cache F)
      → (store key g snap at c).1 ≡ true
      → (store key g snap at c).0.entries key ≡ some (record { snapshot = snap; stored_at = at })
  unfolding store
  store-kept key g snap at c h =
      ground (arith, str_eq_iff key.tenant key.tenant, str_eq_iff key.cu key.cu)

  -- One attempt, by the catalog's answer.
  attempt-Justified :
      (s : Surroundings F) (key : CuKey) (c : Cache F) (n i : ℕ) (b : Cache F)
      → i < 2
      → ((d : Cache F)
          → let l = attempts s key n (suc i) d in JustifiedResult s key c l.cache l.result)
      → (r : Reply F) → s.reply i ≡ r
      → let l = attempts s key (suc n) i b in JustifiedResult s key c l.cache l.result
  unfolding attempts
  attempt-Justified s key c n i b h again Reply.gone e = rw (e, attempts) tt
  attempt-Justified s key c n i b h again Reply.failed e =
      rw (e, attempts) (fall_back-Justified s key c (s.during i (s.before i b)))
  attempt-Justified s key c n i b h again (Reply.listed bindings) e =
      let before = s.before i b in
      let during = s.during i before in
      let g = generations key before in
      let put = store key g bindings (s.stored_at i) during in
      elim (Bool-cases put.1) [
        | inl kept ↦
            rw (e, attempts, kept) (i, h, e, store-kept key g bindings (s.stored_at i) during kept)
        | inr lost ↦ rw (e, attempts, lost) (again put.0)
      ]

  attempts-Justified :
      (s : Surroundings F) (key : CuKey) (c : Cache F) (n i : ℕ) (b : Cache F)
      → n + i ≡ 2
      → let l = attempts s key n i b in JustifiedResult s key c l.cache l.result
  attempts-Justified s key c zero i b h = unfold attempts in tt
  attempts-Justified s key c (suc n) i b h =
      attempt-Justified s key c n i b (omega arith)
        (λ d. attempts-Justified s key c n (suc i) d (omega arith)) (s.reply i) refl

  -- A snapshot from `Load` is always justified by its origin: a cached one is an entry no older
  -- than the TTL, and the cache is left as it was; a fresh one is what the catalog listed in one of
  -- two attempts, and is now the entry; a fallback is an entry no older than the maximal age.
  pub load-Justified :
      (s : Surroundings F) (key : CuKey) (c : Cache F)
      → JustifiedResult s key c (load s key c).cache (load s key c).result
  unfolding load
  load-Justified s key c = elim (Bool-cases (is_empty_text key.tenant || is_empty_text key.cu)) [
    | inl blank ↦ rw blank tt
    | inr keyed ↦ elim (Option-cases (lookup key s.now c.ttl c)) [
      | inr (snap, e) ↦ rw (keyed, load, e) (lookup-some key s.now c.ttl c e, refl)
      | inl e ↦ rw (keyed, load, e) (attempts-Justified s key c 2 0 c refl)
    ]
  ]
