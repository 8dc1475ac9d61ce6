-- ===== src/Dispatch/Invariant/Ids.antt =====
-- The ids of a task's actions, which the circuit breaker tells actions apart by.
use vpp_backend.Prelude.{
  ℕ, zero, suc, String, ◌≡◌, ◌≢◌, refl, ap, false, List, [], ◌∷◌, map, some, All, All-of_map,
  All-map, All-get_elem?, get_elem?, set, arith,
}
use vpp_backend.Dispatch.Model.{DispatchAction}
use vpp_backend.Dispatch.Action.{is_pending_action}

abbrev pub Distinct : List String → Type 0
Distinct [] = Unit
Distinct (x ∷ xs) = All (λ y. y ≢ x) xs × Distinct xs

abbrev pub ids : List DispatchAction → List String
ids = map (λ a. a.id)

pub ids-set :
    (as' : List DispatchAction) (i : ℕ) (v : DispatchAction) {a : DispatchAction}
    → get_elem? as' i ≡ some a
    → v.id ≡ a.id
    → ids (set as' i v) ≡ ids as'
ids-set [] i v e h = refl
ids-set (x ∷ xs) zero v e h = ground arith
ids-set (x ∷ xs) (suc i) v e h = ap (◌∷◌ x.id) (ids-set xs i v e h)

-- Under distinct ids only the place itself holds its id.
pub Distinct-others :
    (as' : List DispatchAction) (i : ℕ) (v : DispatchAction) {a : DispatchAction}
    → Distinct (ids as')
    → get_elem? as' i ≡ some a
    → v.id ≡ a.id
    → is_pending_action v.status ≡ false
    → All (λ b. b.id ≡ v.id → is_pending_action b.status ≡ false) (set as' i v)
Distinct-others [] i v d e h p = tt
Distinct-others (x ∷ xs) zero v {a} d e h p =
    (λ _. p, All-map _ _ (λ b ne eq. absurd (ne (cc))) xs (All-of_map _ (λ b. b.id) xs d.0))
Distinct-others (x ∷ xs) (suc i) v {a} d e h p = (
  λ eq. absurd (All-get_elem? (λ b. b.id ≢ x.id) xs i (All-of_map _ (λ b. b.id) xs d.0) e (cc)),
  Distinct-others xs i v d.1 e h p,
)
