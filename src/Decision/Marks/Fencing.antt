-- ===== src/Decision/Marks/Fencing.antt =====
-- What a claim that holds its lease finds in the outbox.
use vpp_backend.Prelude.{
  ℕ, ◌≡◌, sym, subst, String, str_eq, str_eq_iff, is_empty_text, true, false, not, ◌||◌, Bool-cases,
  Option, Option-cases, some, inl, inr, All, ◌==◌, ok, >>-ok, guard, guard-ok, ok_inj, err_ne_ok,
  arith, ap, ◌∙◌,
}
use mathlib.Core.Bool.{true≢false}
use vpp_backend.Prelude.Rows.{All-update_where, take_where_sound, take_where-All}
use vpp_backend.Decision.Tables.{OutboxStatus, OutboxRow, Tables, PlanError, take_where, one_row}
use vpp_backend.Decision.Claim.{Claim}
use vpp_backend.Decision.Marks.{release_outbox, is_own, holds_lease, check_lease}

empty_ne_worker : (w : String) → is_empty_text w ≡ false → str_eq "" w ≡ false
empty_ne_worker w h = elim (Bool-cases (str_eq "" w)) [
  | inl e ↦ absurd (true≢false (ap is_empty_text ((str_eq_iff "" w).0 e) ∙ h))
  | inr e ↦ e
]

module _ {V : Type 0} where
  -- The row with the claim's id holds its lease.
  pub check_lease-held :
      (claim : Claim V) (now : ℕ) (t : Tables V)
      → check_lease claim now t ≡ ok tt
      → (is_empty_text claim.worker_id ≡ false)
        × ((row : OutboxRow) × (take_where (λ (r : OutboxRow). str_eq r.id claim.outbox_id) t.outbox
              ≡ some row)
            × (holds_lease claim now row ≡ true))
  unfolding check_lease
  check_lease-held claim now t e =
      let (arguments, e₁) =
        >>-ok
          (guard
            (not (
              is_empty_text claim.outbox_id
              || is_empty_text claim.worker_id
              || claim.lease_token == 0
              || now == 0))
            PlanError.lease_lost)
          _ e in
      let present = guard-ok _ PlanError.lease_lost arguments in
      elim (Option-cases (take_where (λ (r : OutboxRow). str_eq r.id claim.outbox_id) t.outbox)) [
        | inl absent ↦ absurd (err_ne_ok (rw absent at e₁))
        | inr (row, found) ↦ (
          ground arith,
          (row, found, guard-ok (holds_lease claim now row) PlanError.lease_lost (rw found at e₁)),
        )
      ]

  -- A row that holds the lease is the claim's own.
  pub holds_lease-is_own :
      (claim : Claim V) (now : ℕ) (row : OutboxRow)
      → str_eq row.id claim.outbox_id ≡ true
      → holds_lease claim now row ≡ true
      → is_own claim row ≡ true
  unfolding holds_lease
  holds_lease-is_own claim now row h k = ground arith

  -- Where no row is the claim's own, its lease is lost.
  no_own :
      (claim : Claim V) (now : ℕ) (t : Tables V)
      → All (λ (r : OutboxRow). is_own claim r ≡ false) t.outbox
      → check_lease claim now t ≡ ok tt
      → ⊥
  no_own claim now t h e =
      let (_, (row, found, held)) = check_lease-held claim now t e in
      let own =
        holds_lease-is_own claim now row
          (take_where_sound (λ (r : OutboxRow). str_eq r.id claim.outbox_id) t.outbox found) held in
      true≢false (sym own ∙ take_where-All _ _ t.outbox h found)

  release_outbox-none-own :
      (claim : Claim V) (status : OutboxStatus) (available_at : Option ℕ) (t t' : Tables V)
      → is_empty_text claim.worker_id ≡ false
      → release_outbox claim status available_at t ≡ ok t'
      → All (λ (r : OutboxRow). is_own claim r ≡ false) t'.outbox
  unfolding release_outbox
  release_outbox-none-own claim status available_at t t' h e =
      let made = ok_inj (>>-ok (one_row (is_own claim) t.outbox) _ e).1 in
      subst (λ (x : Tables V). All (λ (r : OutboxRow). is_own claim r ≡ false) x.outbox) made
        (All-update_where (λ (r : OutboxRow). is_own claim r ≡ false) (is_own claim) _
          (λ r own. ground (arith, empty_ne_worker claim.worker_id h)) (λ r other. other) t.outbox)
