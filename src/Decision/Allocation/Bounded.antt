-- ===== src/Decision/Allocation/Bounded.antt =====
-- What a slot is given: nothing, its room, or a share that fits its room up to `powerEPS`.
use vpp_backend.Prelude.{
  ℕ, zero, suc, ◌≡◌, refl, sym, subst, ap, ◌∙◌, true, false, not, ◌&&◌, Bool-cases, some, some_inj,
  some_ne_none, inl, inr, ◌⊎◌, List, [], ◌∷◌, map, All, All-map, count-zero-All, count, ltb, ◌==◌,
  arith,
}
use vpp_backend.Decision.Allocation.Distribute.{
  PowerFloats, Slot, is_active, new_slot, weight_sum, share, room, is_saturated, at_least_zero,
  grant_share, filled, fill_saturated, distribute_slots, distribute_slots-Ends, distribute,
}

abbrev pub slot_cap : {F : Type 0} → Slot F → F
slot_cap s = s.cap

module _ {F : Type 0} (p : PowerFloats F) where
  -- What may be assigned under a cap: 0, the room that the cap leaves, or a share that is not above the
  -- room by more than `powerEPS`. The sums are those of the code, so that no law of floats is needed.
  abbrev pub Granted : F → F → Type 0
  Granted cap assigned =
      (assigned ≡ p.floats.zero)
      ⊎ ((assigned ≡ p.floats.add p.floats.zero (at_least_zero p (p.floats.sub cap p.floats.zero)))
          ⊎ ((part : F) × (assigned ≡ p.floats.add p.floats.zero part)
              × (p.floats.lt (p.floats.add (p.floats.sub cap p.floats.zero) p.eps) part ≡ false)))

  -- An active slot has nothing yet.
  abbrev Bounded : Slot F → Type 0
  Bounded s = (s.active ≡ true → s.assigned ≡ p.floats.zero) × Granted s.cap s.assigned

  filled-Bounded : (s : Slot F) → s.active ≡ true → Bounded s → Bounded (filled p s)
  filled-Bounded s on b = (
    λ h. cc,
    inr (inl (ap (λ a. p.floats.add a (at_least_zero p (p.floats.sub s.cap a))) (b.0 on))),
  )

  fill_saturated-Bounded :
      (before total remaining : F) (slots : List (Slot F))
      → All Bounded slots
      → All Bounded (fill_saturated p before total remaining slots).0
  unfolding fill_saturated is_saturated
  fill_saturated-Bounded before total remaining [] h = tt
  fill_saturated-Bounded before total remaining (s ∷ slots) h =
      elim (Bool-cases (is_saturated p before total s)) [
        | inl full ↦
            rw (full, fill_saturated)
              (
                filled-Bounded s (ground (arith, full)) h.0,
                fill_saturated-Bounded before total
                    (p.floats.sub remaining (at_least_zero p (room p s))) slots h.1,
              )
        | inr free ↦
            rw (free, fill_saturated) (h.0, fill_saturated-Bounded before total remaining slots h.1)
      ]

  fill_saturated-caps :
      (before total remaining : F) (slots : List (Slot F))
      → map slot_cap (fill_saturated p before total remaining slots).0 ≡ map slot_cap slots
  unfolding fill_saturated
  fill_saturated-caps before total remaining [] = refl
  fill_saturated-caps before total remaining (s ∷ slots) =
      elim (Bool-cases (is_saturated p before total s)) [
        | inl full ↦
            rw (full, fill_saturated)
              (ap (λ caps. s.cap ∷ caps)
                (fill_saturated-caps before total
                  (p.floats.sub remaining (at_least_zero p (room p s))) slots))
        | inr free ↦
            rw (free, fill_saturated)
              (ap (λ caps. s.cap ∷ caps) (fill_saturated-caps before total remaining slots))
      ]

  abbrev pub Fits : Slot F → Type 0
  Fits s = Granted s.cap s.assigned

  grant_share-Fits :
      (remaining total : F) (s : Slot F)
      → is_saturated p remaining total s ≡ false
      → Bounded s
      → Fits (grant_share p remaining total s)
  unfolding is_saturated grant_share
  grant_share-Fits remaining total s free b =
      let part = share p remaining total s in
      elim (Bool-cases s.active) [
        | inl on ↦ rw on (
            inr (
              inr (
                part,
                ap (λ a. p.floats.add a part) (b.0 on),
                subst (λ a. p.floats.lt (p.floats.add (p.floats.sub s.cap a) p.eps) part ≡ false)
                    (b.0 on) (ground (arith, free, on)),
              )))
        | inr off ↦ rw off b.1
      ]

  grant_share-cap :
      (remaining total : F) (s : Slot F) → (grant_share p remaining total s).cap ≡ s.cap
  unfolding grant_share
  grant_share-cap remaining total s = elim (Bool-cases s.active) [
    | inl on ↦ rw on refl
    | inr off ↦ rw off refl
  ]

  -- The slots fit, and their caps are those given.
  abbrev pub Distributed : List F → List (Slot F) → Type 0
  Distributed caps out = All Fits out × (map slot_cap out ≡ caps)

  granted-Distributed :
      (remaining total : F) (slots : List (Slot F))
      → All (λ s. is_saturated p remaining total s ≡ false) slots
      → All Bounded slots
      → Distributed (map slot_cap slots) (map (grant_share p remaining total) slots)
  granted-Distributed remaining total [] free h = (tt, refl)
  granted-Distributed remaining total (s ∷ slots) free h =
      let (fits, caps) = granted-Distributed remaining total slots free.1 h.1 in
      (
        (grant_share-Fits remaining total s free.0 h.0, fits),
        ap (λ c. c ∷ map slot_cap (map (grant_share p remaining total) slots))
              (grant_share-cap remaining total s)
            ∙ ap (λ caps. s.cap ∷ caps) caps,
      )

  distribute_slots-Distributed :
      (fuel : ℕ) (remaining : F) (slots out : List (Slot F))
      → All Bounded slots
      → distribute_slots p fuel remaining slots ≡ some out
      → Distributed (map slot_cap slots) out
  unfolding distribute_slots
  distribute_slots-Distributed zero remaining slots out h e = absurd (some_ne_none (sym e))
  distribute_slots-Distributed (suc fuel) remaining slots out h e =
      let total = weight_sum p p.floats.zero slots in
      let kept = All-map Bounded Fits (λ s b. b.1) slots h in
      elim (Bool-cases (not (ltb 0 (count is_active slots) && p.floats.lt p.eps remaining))) [
        | inl over ↦
            subst (Distributed (map slot_cap slots)) (some_inj.0 (rw (over, distribute_slots) at e))
              (kept, refl)
        | inr on ↦ elim (Bool-cases (p.floats.le total p.eps)) [
          | inl light ↦
              subst (Distributed (map slot_cap slots))
                (some_inj.0 (rw (on, light, distribute_slots) at e)) (kept, refl)
          | inr heavy ↦ elim (Bool-cases (count (is_saturated p remaining total) slots == 0)) [
            | inl all_free ↦
                subst (Distributed (map slot_cap slots))
                  (some_inj.0 (rw (on, heavy, all_free, distribute_slots) at e))
                  (granted-Distributed remaining total slots
                    (count-zero-All (is_saturated p remaining total) slots
                      (ground (arith, all_free)))
                    h)
            | inr some_full ↦
                let (fits, caps) =
                  distribute_slots-Distributed fuel
                    (at_least_zero p (fill_saturated p remaining total remaining slots).1)
                    (fill_saturated p remaining total remaining slots).0 out
                    (fill_saturated-Bounded remaining total remaining slots h)
                    (rw (on, heavy, some_full, distribute_slots) at e) in
                (fits, caps ∙ fill_saturated-caps remaining total remaining slots)
          ]
        ]
      ]

  new_slots-Bounded : (inputs : List (F × F)) → All Bounded (map (new_slot p) inputs)
  new_slots-Bounded [] = tt
  new_slots-Bounded (x ∷ inputs) = ((λ _. refl, inl refl), new_slots-Bounded inputs)

  -- Whatever the arithmetic does, the rounds come to an end; then the slots have the caps given, in order,
  -- and each has nothing, the room of its cap, or a share that is not above it by more than `powerEPS`.
  pub distribute-Distributed :
      (target : F) (inputs : List (F × F))
      → (out : List (Slot F)) × (distribute p target inputs ≡ some out)
        × Distributed (map slot_cap (map (new_slot p) inputs)) out
  unfolding distribute
  distribute-Distributed target inputs =
      let slots = map (new_slot p) inputs in
      let (out, e) =
        distribute_slots-Ends p (suc (count is_active slots)) target slots (omega arith) in
      (
        out,
        e,
        distribute_slots-Distributed (suc (count is_active slots)) target slots out
            (new_slots-Bounded inputs) e,
      )
