-- ===== src/Gateway/Cache.antt =====
-- internal/gateway/domain/binding/cache.go. A Go map is a function of its key; the epochs are
-- `uint64`. Each operation holds the lock from its start to its end, so a run of the program is a
-- sequence of operations; what other callers do while `Load` waits for the catalog is an argument.
pub mod Races
pub mod Later
pub mod Loads
mod Tests
use vpp_backend.Prelude.{
  ℕ, zero, suc, ℤ, ◌-ℤ◌, ltb_ℤ, leb_ℤ, pos, String, str_eq, is_empty_text, Bool, true, false, not,
  ◌&&◌, ◌||◌, Option, none, some, Result, ok, err, List, if◌then◌else◌, ◌+◌, ◌%◌, ◌==◌,
}
use vpp_backend.Gateway.Binding.{Binding, Snapshot, contains_point}

-- Instants and durations in nanoseconds.
abbrev pub Time : Type 0
Time = ℤ

pub record CuKey : Type 0 where
  pub tenant : String
  pub cu : String

abbrev pub same_key : CuKey → CuKey → Bool
same_key k l = str_eq k.tenant l.tenant && str_eq k.cu l.cu

-- uint64 `n++`.
abbrev pub increment : ℕ → ℕ
increment n = (n + 1) % 18446744073709551616

pub data Origin : Type 0 where
  cache fresh fallback : Origin

-- What `Load` reports to the observer.
pub data Observation : Type 0 where
  loaded : Origin → Observation
  skipped unobserved : Observation

pub data LoadError : Type 0 where
  key_required cancelled catalog_failed bindings_changed : LoadError

pub record Entry (F : Type 0) : Type 0 where
  pub snapshot : Snapshot F
  pub stored_at : Time

pub record Cache (F : Type 0) : Type 0 where
  pub ttl : ℤ
  pub max_age : ℤ
  pub entries : CuKey → Option (Entry F)
  pub epoch : CuKey → ℕ
  pub tenant_epoch : String → ℕ

-- `NewCache`; `none` is a panic. The catalog, the clock and the observer are arguments of `load`.
unfoldable new_cache : {F : Type 0} → ℤ → ℤ → Option (Cache F)
new_cache ttl max_age =
    if leb_ℤ ttl (pos 0)
    then none
    else if ltb_ℤ max_age ttl
    then none
    else some (record {
      ttl = ttl;
      max_age = max_age;
      entries = λ k. none;
      epoch = λ k. 0;
      tenant_epoch = λ t. 0;
    })

module _ {F : Type 0} where
  unfoldable pub lookup : CuKey → Time → ℤ → Cache F → Option (Snapshot F)
  unfolding ◌-ℤ◌
  lookup key now age c = elim (c.entries key) [
    | none ↦ none
    | some item ↦ if ltb_ℤ age (now -ℤ item.stored_at) then none else some item.snapshot
  ]

  unfoldable pub generations : CuKey → Cache F → ℕ × ℕ
  generations key c = (c.epoch key, c.tenant_epoch key.tenant)

  unfoldable pub store : CuKey → ℕ × ℕ → Snapshot F → Time → Cache F → Cache F × Bool
  store key (cu_epoch, tenant_epoch) snap stored_at c =
      if not (c.epoch key == cu_epoch) || not (c.tenant_epoch key.tenant == tenant_epoch)
      then (c, false)
      else (
        record c {
          entries = λ k.
              if same_key k key
              then some (record { snapshot = snap; stored_at = stored_at })
              else c.entries k;
        },
        true,
      )

  -- Drops the entries that a test picks, and counts each drop.
  unfoldable drop_entries : (CuKey → Bool) → Cache F → Cache F
  drop_entries picks c = record c {
    entries = λ k. if picks k then none else c.entries k;
    epoch = λ k. if picks k then increment (c.epoch k) else c.epoch k;
  }

  unfoldable pub invalidate : CuKey → Cache F → Cache F
  unfolding drop_entries
  invalidate key c = drop_entries (λ k. same_key k key) c

  unfoldable pub invalidate_cu : String → String → Cache F → Cache F
  unfolding invalidate
  invalidate_cu tenant cu c =
      if is_empty_text tenant || is_empty_text cu
      then c
      else invalidate (record { tenant = tenant; cu = cu }) c

  abbrev pub holds_point : Option (Entry F) → String → Bool
  holds_point none point = false
  holds_point (some item) point = contains_point item.snapshot point

  unfoldable pub invalidate_point : String → String → Cache F → Cache F
  unfolding drop_entries contains_point
  invalidate_point tenant point c =
      if is_empty_text tenant || is_empty_text point
      then c
      else drop_entries (λ k. str_eq k.tenant tenant && holds_point (c.entries k) point) c

  abbrev is_cached : Option (Entry F) → Bool
  is_cached none = false
  is_cached (some item) = true

  unfoldable pub invalidate_tenant : String → Cache F → Cache F
  unfolding drop_entries
  invalidate_tenant tenant c =
      if is_empty_text tenant
      then c
      else drop_entries (λ k. str_eq k.tenant tenant && is_cached (c.entries k))
          (record c {
            tenant_epoch =
                λ t. if str_eq t tenant then increment (c.tenant_epoch t) else c.tenant_epoch t;
          })

-- What the catalog answers: bindings, an error, or an error after the caller has gone.
pub data Reply (F : Type 0) : Type 0 where
  listed : List (Binding F) → Reply F
  failed gone : Reply F

-- What a call of `load` meets: the clock, the catalog's answer to each attempt, and what other
-- callers do to the cache before an attempt and while it waits for the catalog.
pub record Surroundings (F : Type 0) : Type 0 where
  pub now : Time
  pub stored_at : ℕ → Time
  pub reply : ℕ → Reply F
  pub before : ℕ → Cache F → Cache F
  pub during : ℕ → Cache F → Cache F

pub record Loaded (F : Type 0) : Type 0 where
  pub cache : Cache F
  pub observed : Observation
  pub result : Result LoadError (Snapshot F × Origin)

module _ {F : Type 0} (s : Surroundings F) (key : CuKey) where
  unfoldable pub fall_back : Cache F → Loaded F
  unfolding lookup
  fall_back c = elim (lookup key s.now c.max_age c) [
    | some snap ↦ record { cache = c; observed = loaded fallback; result = ok (snap, fallback) }
    | none ↦ record { cache = c; observed = skipped; result = err catalog_failed }
  ]

  -- The loop of `Load`, with the attempts left and the number of this one.
  unfoldable pub attempts : ℕ → ℕ → Cache F → Loaded F
  unfolding generations store fall_back
  attempts zero i c = record { cache = c; observed = skipped; result = err bindings_changed }
  attempts (suc n) i c =
      let b = s.before i c in
      let d = s.during i b in
      elim (s.reply i) [
        | gone ↦ record { cache = d; observed = unobserved; result = err cancelled }
        | failed ↦ fall_back d
        | listed bindings ↦
            let (c', kept) = store key (generations key b) bindings (s.stored_at i) d in
            let again = attempts n (suc i) c' in
            if kept
            then record { cache = c'; observed = loaded fresh; result = ok (bindings, fresh) }
            else again
      ]

  unfoldable pub load : Cache F → Loaded F
  unfolding lookup attempts
  load c =
      if is_empty_text key.tenant || is_empty_text key.cu
      then record { cache = c; observed = unobserved; result = err key_required }
      else elim (lookup key s.now c.ttl c) [
        | some snap ↦ record { cache = c; observed = loaded cache; result = ok (snap, cache) }
        | none ↦ attempts 2 0 c
      ]
