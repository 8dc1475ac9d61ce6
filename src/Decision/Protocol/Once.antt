-- ===== src/Decision/Protocol/Once.antt =====
-- A claim records at most one outcome, whatever other workers do after it.
use vpp_backend.Prelude.{
  ℕ, ◌≤◌, ◌<◌, ◌≡◌, refl, sym, subst, ◌⊎◌, inl, inr, ◌∙◌, String, str_eq, Bool, true, false,
  Bool-cases, Option, none, some, List, [], ◌∷◌, All, count, >>-ok, ok_inj, arith,
}
use mathlib.Core.Bool.{true≢false}
use vpp_backend.Prelude.Rows.{take_where_sound, take_where-All}
use vpp_backend.Decision.Tables.{OutboxStatus, OutboxRow, Tables, is_claimed, update_where, one_row}
use vpp_backend.Decision.Claim.{Claim}
use vpp_backend.Decision.Claim.Reach.{Reach}
use vpp_backend.Decision.Marks.{release_outbox, released_row, is_own, holds_lease}
use vpp_backend.Decision.Marks.Rows.{Marked, Marked-Released}
use vpp_backend.Decision.Marks.Fencing.{check_lease-held, holds_lease-is_own}
use vpp_backend.Decision.Protocol.{
  Phase, LeaseState, LeaseStep, LeaseSteps, phase_of, lease_state, Each,
}
use vpp_backend.Decision.Protocol.Refines.{Follows, Reach-Refines, single}

abbrev is_held : Phase → Bool
is_held Phase.waiting = false
is_held Phase.closed = false
is_held (Phase.leased worker until) = true

-- The lease under token `k` is over.
abbrev Over : ℕ → LeaseState → Type 0
Over k (n, phase) = (k < n) ⊎ ((n ≡ k) × (is_held phase ≡ false))

Over-step : (k : ℕ) (s u : LeaseState) → LeaseStep s u → Over k s → Over k u
Over-step k s u (LeaseStep.take_waiting worker until) (inl h) = inl (omega arith)
Over-step k s u (LeaseStep.take_waiting worker until) (inr h) = inl (omega (arith, h.0))
Over-step k s u (LeaseStep.take_over worker until) (inl h) = inl (omega arith)
Over-step k s u (LeaseStep.take_over worker until) (inr h) = absurd (true≢false h.1)
Over-step k s u (LeaseStep.put_back now l) (inl h) = inl h
Over-step k s u (LeaseStep.put_back now l) (inr h) = absurd (true≢false h.1)
Over-step k s u (LeaseStep.close now l) (inl h) = inl h
Over-step k s u (LeaseStep.close now l) (inr h) = absurd (true≢false h.1)

Over-steps : (k : ℕ) (s u : LeaseState) → LeaseSteps s u → Over k s → Over k u
Over-steps k s u LeaseSteps.stay h = h
Over-steps k s u (LeaseSteps.step {t = m} before last) h =
    Over-step k m u last (Over-steps k s m before h)

held_phase :
    (status : OutboxStatus) (worker : String) (until : Option ℕ)
    → is_claimed status ≡ is_held (phase_of status worker until)
held_phase OutboxStatus.pending worker until = refl
held_phase OutboxStatus.claimed worker none = refl
held_phase OutboxStatus.claimed worker (some u) = refl
held_phase OutboxStatus.done worker until = refl
held_phase OutboxStatus.stale worker until = refl
held_phase OutboxStatus.failed worker until = refl

-- What holds of each entry goes over to the entry beside it.
Each-All {ℓ} :
    {A : Type ℓ} (R : A → A → Type 0) (P : A → Type 0)
    → ((x y : A) → R x y → P x → P y)
    → (xs ys : List A) → Each R xs ys
    → All P xs
    → All P ys
Each-All R P f [] [] e h = tt
Each-All R P f [] (y ∷ ys) e h = absurd e
Each-All R P f (x ∷ xs) [] e h = tt
Each-All R P f (x ∷ xs) (y ∷ ys) e h = (f x y e.0 h.0, Each-All R P f xs ys e.1 h.1)

module _ {V : Type 0} (claim : Claim V) where
  -- If the row is the one of the claim, the lease of the claim is over.
  abbrev Spent : OutboxRow → Type 0
  Spent r = str_eq r.id claim.outbox_id ≡ true → Over claim.lease_token (lease_state r)

  Follows-Spent : (a b : OutboxRow) → Follows a b → Spent a → Spent b
  Follows-Spent a b (same, steps) h at =
      Over-steps claim.lease_token (lease_state a) (lease_state b) steps
        (h (subst (λ i. str_eq i claim.outbox_id ≡ true) (sym same) at))

  released-Spent :
      (status : OutboxStatus) (available_at : Option ℕ) (r : OutboxRow)
      → is_claimed status ≡ false
      → is_own claim r ≡ true
      → Spent (released_row status available_at r)
  released-Spent status available_at r n own at =
      inr (ground arith, sym (held_phase status "" none) ∙ n)

  update_where-Spent :
      (status : OutboxStatus) (available_at : Option ℕ)
      → is_claimed status ≡ false
      → (rows : List OutboxRow)
      → All (λ (r : OutboxRow). str_eq r.id claim.outbox_id ≡ true → is_own claim r ≡ true) rows
      → All Spent (update_where (is_own claim) (released_row status available_at) rows)
  unfolding update_where
  update_where-Spent status available_at n [] h = tt
  update_where-Spent status available_at n (r ∷ rs) h = elim (Bool-cases (is_own claim r)) [
    | inl e ↦
        rw e (
          released-Spent status available_at r n e,
          update_where-Spent status available_at n rs h.1,
        )
    | inr e ↦ rw e (
      (λ at. absurd (true≢false (sym (h.0 at) ∙ e))),
      update_where-Spent status available_at n rs h.1,
    )
  ]

  -- A mark ends the lease of its claim, where the id of the row is its key.
  Marked-Spent :
      {now : ℕ} {t t' : Tables V}
      → count (λ (r : OutboxRow). str_eq r.id claim.outbox_id) t.outbox ≤ 1
      → Marked claim now t t'
      → All Spent t'.outbox
  unfolding release_outbox
  Marked-Spent {now} {t} {t'} key m =
      let (status, available_at, n, r) = Marked-Released m in
      let (_, (row, found, held)) = check_lease-held claim now t r.held in
      let at = take_where_sound (λ (r : OutboxRow). str_eq r.id claim.outbox_id) t.outbox found in
      let own = holds_lease-is_own claim now row at held in
      let all_own =
        single (λ x. is_own claim x ≡ true) (λ (r : OutboxRow). str_eq r.id claim.outbox_id)
          (λ (r : OutboxRow). str_eq r.id claim.outbox_id) t.outbox key found at own in
      let made = ok_inj (>>-ok (one_row (is_own claim) r.before.outbox) _ r.done).1 in
      subst (λ (x : Tables V). All Spent x.outbox) made
        (subst
          (λ rows. All Spent (update_where (is_own claim) (released_row status available_at) rows))
          (sym r.same) (update_where-Spent status available_at n t.outbox all_own))

  held-not-Spent :
      (now : ℕ) (r : OutboxRow)
      → holds_lease claim now r ≡ true
      → Over claim.lease_token (lease_state r)
      → ⊥
  unfolding holds_lease
  held-not-Spent now r held (inl newer) = ground arith
  held-not-Spent now r held (inr (_, free)) =
      let claimed : is_claimed r.status ≡ true = ground arith in
      true≢false (sym claimed ∙ held_phase r.status r.claimed_by r.lease_until ∙ free)

-- Once a claim has recorded an outcome, it records no other, at any later time: however workers claim
-- and mark in between, a second mark of the claim fails. The id of the claim's row must be that of no
-- other row.
pub marks-once :
    {V : Type 0} (id_less : String → String → Bool) {claim : Claim V} {now : ℕ} {t t' : Tables V}
    (now' : ℕ) (later after : Tables V)
    → count (λ (r : OutboxRow). str_eq r.id claim.outbox_id) t.outbox ≤ 1
    → Marked claim now t t'
    → Reach id_less t' later
    → ¬ Marked claim now' later after
marks-once id_less {claim} {now} {t} {t'} now' later after key first reach second =
    let spent =
      Each-All Follows (Spent claim) (Follows-Spent claim) t'.outbox later.outbox
        (Reach-Refines id_less t' later reach) (Marked-Spent claim key first) in
    let (_, _, _, r) = Marked-Released second in
    let (_, (row, found, held)) = check_lease-held claim now' later r.held in
    held-not-Spent claim now' row held (
      take_where-All (Spent claim) (λ (r : OutboxRow). str_eq r.id claim.outbox_id) later.outbox
        spent found
        (take_where_sound (λ (r : OutboxRow). str_eq r.id claim.outbox_id) later.outbox found))
