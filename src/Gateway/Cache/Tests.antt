-- ===== src/Gateway/Cache/Tests.antt =====
-- The theorems about the binding cache at one cached CU.
use vpp_backend.Prelude.{ℕ, pos, ◌+◌, ◌≡◌, refl, true, false, [], ◌∷◌, ◌++◌, none, some, ok, arith}
use vpp_backend.Gateway.Binding.{Binding, contains_point}
use vpp_backend.Contracts.{AccessMode}
use vpp_backend.Gateway.Cache.{
  CuKey, Cache, Reply, Surroundings, Origin, generations, store, lookup, invalidate_point, load,
}
use vpp_backend.Gateway.Cache.Races.{Op, apply, run, racing_store-refused, invalidate_point-unseen}
use vpp_backend.Gateway.Cache.Later.{lookup-run_hit}
use vpp_backend.Gateway.Cache.Loads.{JustifiedResult, load-Justified}

abbrev power : Binding ℕ
power = record {
  point_id = "p1";
  metric_id = "electrical.active_power.v1";
  external_address = "40001";
  access_mode = some AccessMode.read;
  scale = 1;
  offset = 0;
  enabled = true;
  revision = pos 1;
  safety = none;
}

abbrev cu_1 : CuKey
cu_1 = record { tenant = "t1"; cu = "cu-1" }

abbrev empty : Cache ℕ
empty = record {
  ttl = pos 60;
  max_age = pos 600;
  entries = λ k. none;
  epoch = λ k. 0;
  tenant_epoch = λ t. 0;
}

abbrev cached : Cache ℕ
cached = record empty { entries = λ k. some (record { snapshot = power ∷ []; stored_at = pos 5 }) }

racing_store-refused_example :
    store cu_1
      (generations cu_1 empty)
      (power ∷ [])
      (pos 9)
      (run ([] ++ Op.invalidates_tenant "t1" ∷ Op.invalidates_cu "t2" "cu-1" ∷ []) empty)
    ≡ (run ([] ++ Op.invalidates_tenant "t1" ∷ Op.invalidates_cu "t2" "cu-1" ∷ []) empty, false)
racing_store-refused_example =
    racing_store-refused cu_1 empty [] (Op.invalidates_cu "t2" "cu-1" ∷ [])
      (Op.invalidates_tenant "t1") (power ∷ []) (pos 9) (omega arith) (refl, refl) (omega arith)

-- Between the invalidation and the lookup a list is offered that was asked for before.
lookup-run_hit_example :
    lookup cu_1 (pos 6) (pos 600) (
      run
        ([]
          ++ Op.invalidates_point "t1" "p1"
            ∷ Op.stores cu_1 (generations cu_1 cached) (power ∷ []) (pos 6)
            ∷ [])
        cached)
    ≡ none
unfolding contains_point run
lookup-run_hit_example =
    lookup-run_hit cu_1 cached [] (omega arith, omega arith)
      (Op.stores cu_1 (generations cu_1 cached) (power ∷ []) (pos 6) ∷ [])
      (Op.invalidates_point "t1" "p1") (pos 6) (pos 600) (refl, refl, refl, refl)
      ((λ same. ([], [], refl, refl)), tt) (omega arith)

invalidate_point-unseen_example :
    let (c', kept) =
      store cu_1 (generations cu_1 empty) (power ∷ []) (pos 9) (invalidate_point "t1" "p1" empty) in
    (kept ≡ true) × (lookup cu_1 (pos 9) c'.ttl c' ≡ some (power ∷ []))
invalidate_point-unseen_example =
    invalidate_point-unseen cu_1 empty "p1" (power ∷ []) (pos 9) refl (omega arith)

-- The catalog lists the bindings at the second attempt, after an invalidation during the first.
abbrev raced : Surroundings ℕ
raced = record {
  now = pos 9;
  stored_at = λ i. pos (10 + i);
  reply = λ i. Reply.listed (power ∷ []);
  before = λ i c. c;
  during = λ i c. elim i [ ℕ.zero ↦ apply (Op.invalidates_cu "t1" "cu-1") c | ℕ.suc n ↦ c ];
}

load-Justified_example :
    JustifiedResult raced cu_1 empty (load raced cu_1 empty).cache (load raced cu_1 empty).result
load-Justified_example = load-Justified raced cu_1 empty

raced_loads : (load raced cu_1 empty).result ≡ ok (power ∷ [], Origin.fresh)
unfolding load apply
raced_loads = refl
