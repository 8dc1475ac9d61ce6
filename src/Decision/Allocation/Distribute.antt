-- ===== src/Decision/Allocation/Distribute.antt =====
-- internal/decision/domain/allocation/heuristic.go: `distribute`, the rounds that split a target by weight
-- and fill what is saturated. The arrays of the code are one list of slots. It runs on fuel: one more than
-- the active slots is enough (`distribute_slots-Ends`).
use vpp_backend.Prelude.{
  ℕ, zero, suc, ◌+◌, ◌<◌, ◌≡◌, refl, Bool, false, not, ◌&&◌, Bool-cases, Option, none, some, inl,
  inr, List, [], ◌∷◌, map, count, ltb, ◌==◌, if◌then◌else◌, arith,
}
use vpp_backend.Gateway.Floats.{Floats}

-- The operations on `float64` with a negation, `powerEPS` and 100.
pub record PowerFloats (F : Type 0) : Type 0 where
  pub floats : Floats F
  pub neg : F → F
  pub eps : F
  pub hundred : F

pub record Slot (F : Type 0) : Type 0 where
  pub cap : F
  pub weight : F
  pub assigned : F
  pub active : Bool

abbrev pub is_active : {F : Type 0} → Slot F → Bool
is_active s = s.active

module _ {F : Type 0} (p : PowerFloats F) where
  -- The two inputs of a slot, `caps[i]` and `weights[i]`.
  abbrev pub new_slot : F × F → Slot F
  new_slot (cap, weight) = record {
    cap = cap;
    weight = weight;
    assigned = p.floats.zero;
    active = p.floats.lt p.eps cap && p.floats.lt p.eps weight;
  }

  unfoldable pub weight_sum : F → List (Slot F) → F
  weight_sum acc [] = acc
  weight_sum acc (s ∷ slots) =
      weight_sum (if s.active then p.floats.add acc s.weight else acc) slots

  abbrev pub share : F → F → Slot F → F
  share remaining total s = p.floats.div (p.floats.mul remaining s.weight) total

  abbrev pub room : Slot F → F
  room s = p.floats.sub s.cap s.assigned

  unfoldable pub is_saturated : F → F → Slot F → Bool
  is_saturated remaining total s =
      s.active && p.floats.lt (p.floats.add (room s) p.eps) (share remaining total s)

  -- `if room < 0 { room = 0 }`, and the same for what remains.
  abbrev pub at_least_zero : F → F
  at_least_zero v = if p.floats.lt v p.floats.zero then p.floats.zero else v

  unfoldable pub grant_share : F → F → Slot F → Slot F
  grant_share remaining total s =
      if s.active
      then record s { assigned = p.floats.add s.assigned (share remaining total s) }
      else s

  abbrev pub filled : Slot F → Slot F
  filled s = record s {
    assigned = p.floats.add s.assigned (at_least_zero (room s));
    active = false;
  }

  -- The saturated slots take what room they have; `remaining` goes down, the shares are those of before.
  unfoldable pub fill_saturated : F → F → F → List (Slot F) → List (Slot F) × F
  unfolding is_saturated
  fill_saturated before total remaining [] = ([], remaining)
  fill_saturated before total remaining (s ∷ slots) =
      if is_saturated before total s
      then (let (rest, left) =
            fill_saturated before total (p.floats.sub remaining (at_least_zero (room s))) slots in
          (filled s ∷ rest, left))
      else (let (rest, left) = fill_saturated before total remaining slots in (s ∷ rest, left))

  unfoldable pub distribute_slots : ℕ → F → List (Slot F) → Option (List (Slot F))
  unfolding weight_sum is_saturated grant_share fill_saturated
  distribute_slots zero remaining slots = none
  distribute_slots (suc fuel) remaining slots =
      let total = weight_sum p.floats.zero slots in
      let (next, left) = fill_saturated remaining total remaining slots in
      let rest = distribute_slots fuel (at_least_zero left) next in
      if not (ltb 0 (count is_active slots) && p.floats.lt p.eps remaining)
      then some slots
      else if p.floats.le total p.eps
      then some slots
      else if count (is_saturated remaining total) slots == 0
      then some (map (grant_share remaining total) slots)
      else rest

  -- `distribute`, with the fuel that is enough.
  unfoldable pub distribute : F → List (F × F) → Option (List (Slot F))
  unfolding distribute_slots
  distribute target inputs =
      let slots = map new_slot inputs in distribute_slots (suc (count is_active slots)) target slots

  fill_saturated-count :
      (before total remaining : F) (slots : List (Slot F))
      → count is_active (fill_saturated before total remaining slots).0
          + count (is_saturated before total) slots
        ≡ count is_active slots
  unfolding fill_saturated is_saturated
  fill_saturated-count before total remaining [] = refl
  fill_saturated-count before total remaining (s ∷ slots) =
      elim (Bool-cases (is_saturated before total s)) [
        | inl full ↦
            let rest =
              fill_saturated-count before total (p.floats.sub remaining (at_least_zero (room s)))
                slots in
            ground (arith, rest, full)
        | inr free ↦
            let rest = fill_saturated-count before total remaining slots in
            ground (arith, rest, free)
      ]

  -- A result comes out.
  abbrev pub Ends : ℕ → F → List (Slot F) → Type 0
  Ends fuel remaining slots =
      (out : List (Slot F)) × (distribute_slots fuel remaining slots ≡ some out)

  -- With more fuel than there are active slots the rounds come to an end, whatever the arithmetic does:
  -- each round but the last makes a slot inactive.
  pub distribute_slots-Ends :
      (fuel : ℕ) (remaining : F) (slots : List (Slot F))
      → count is_active slots < fuel
      → Ends fuel remaining slots
  unfolding distribute_slots
  distribute_slots-Ends zero remaining slots h = absurd (omega arith)
  distribute_slots-Ends (suc fuel) remaining slots h =
      let total = weight_sum p.floats.zero slots in
      let fewer = fill_saturated-count remaining total remaining slots in
      elim (Bool-cases (not (ltb 0 (count is_active slots) && p.floats.lt p.eps remaining))) [
        | inl over ↦ (slots, rw (over, distribute_slots) refl)
        | inr on ↦ elim (Bool-cases (p.floats.le total p.eps)) [
          | inl light ↦ (slots, rw (on, light, distribute_slots) refl)
          | inr heavy ↦ elim (Bool-cases (count (is_saturated remaining total) slots == 0)) [
            | inl all_free ↦ (
              map (grant_share remaining total) slots,
              rw (on, heavy, all_free, distribute_slots) refl,
            )
            | inr some_full ↦
                let (out, e) =
                  distribute_slots-Ends fuel
                    (at_least_zero (fill_saturated remaining total remaining slots).1)
                    (fill_saturated remaining total remaining slots).0
                    (ground (arith, fewer, some_full)) in
                (out, rw (on, heavy, some_full, distribute_slots) e)
          ]
        ]
      ]
