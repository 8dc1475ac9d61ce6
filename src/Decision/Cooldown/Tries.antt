-- ===== src/Decision/Cooldown/Tries.antt =====
-- A call that gets the window has written it in one of its three tries.
use vpp_backend.Prelude.{
  ℕ, zero, suc, ◌+◌, ◌<◌, ◌≡◌, refl, ◌∙◌, ap, String, Bool, true, not, ◌&&◌, Option, none, some,
  some_inj, inl, inr, ◌⊎◌, ltb, ◌==◌, Result, ok, ◌>>◌, >>-ok, guard, guard-ok, ok_inj, arith,
}
use vpp_backend.Decision.Cooldown.{
  CooldownKey, CooldownRow, CooldownView, CooldownError, Try, validate_key, cooldown_try,
  cooldown_tries, write_cooldown,
}

Try-cases :
    (t : Try) → ((row : CooldownRow) × (t ≡ Try.wrote row)) ⊎ ((t ≡ Try.held) ⊎ (t ≡ Try.again))
Try-cases (Try.wrote row) = inl (row, refl)
Try-cases Try.held = inr (inl refl)
Try-cases Try.again = inr (inr refl)

module _ (now until : ℕ) (objective_id plan_id : String) (only_if_expired : Bool)
    (views : ℕ → CooldownView) where
  -- The try that wrote the row, among those before `limit`.
  abbrev pub WroteBy : ℕ → CooldownRow → Type 0
  WroteBy limit row =
      (i : ℕ) × (i < limit)
      × (cooldown_try now until objective_id plan_id only_if_expired (views i) ≡ Try.wrote row)

  cooldown_tries-WroteBy :
      (n i : ℕ) (row : CooldownRow)
      → cooldown_tries now until objective_id plan_id only_if_expired views n i ≡ ok (some row)
      → WroteBy (i + n) row
  unfolding cooldown_tries
  cooldown_tries-WroteBy zero i row e = cc
  cooldown_tries-WroteBy (suc n) i row e =
      elim (Try-cases (cooldown_try now until objective_id plan_id only_if_expired (views i))) [
        | inl (written, w) ↦
            (i, omega arith, w ∙ ap Try.wrote (some_inj.0 (ok_inj (rw (w, cooldown_tries) at e))))
        | inr (inl h) ↦
            let e' : ◌≡◌ {A = Result CooldownError (Option CooldownRow)} (ok none) (ok (some row)) =
              rw (h, cooldown_tries) at e in
            cc
        | inr (inr a) ↦
            let (j, less, w) = cooldown_tries-WroteBy n (suc i) row (rw (a, cooldown_tries) at e) in
            (j, omega arith, w)
      ]

  -- A call that gets the window has a valid key and an end that is set, and, if it may only take an
  -- expired window, one after now; the row that it returns was written by one of its three tries.
  pub write_cooldown-WroteBy :
      (key : CooldownKey) (row : CooldownRow)
      → write_cooldown key now until objective_id plan_id only_if_expired views ≡ ok (some row)
      → (validate_key key ≡ ok tt)
        × (0 < until)
        × (only_if_expired ≡ true → now < until)
        × WroteBy 3 row
  unfolding write_cooldown
  write_cooldown-WroteBy key row e =
      let (checked, tried) =
        >>-ok
          (validate_key key
            >> guard (not (not (ltb now until) && only_if_expired))
                CooldownError.until_not_after_now
            >> guard (not (until == 0)) CooldownError.until_required)
          _ e in
      let (checked', set) =
        >>-ok
          (validate_key key
            >> guard (not (not (ltb now until) && only_if_expired))
                CooldownError.until_not_after_now)
          _ checked in
      let (valid, after_now) = >>-ok (validate_key key) _ checked' in
      let set' = guard-ok (not (until == 0)) CooldownError.until_required set in
      let after' =
        guard-ok (not (not (ltb now until) && only_if_expired)) CooldownError.until_not_after_now
          after_now in
      (valid, ground arith, (λ h. ground arith), cooldown_tries-WroteBy 3 0 row tried)
