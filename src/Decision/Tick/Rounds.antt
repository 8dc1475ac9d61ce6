-- ===== src/Decision/Tick/Rounds.antt =====
-- A round of a pass leaves fewer rows that are due: a claimed row is leased, a released one is over
-- or put off.
use vpp_backend.Prelude.{
  ℕ, suc, ◌+◌, ◌≤◌, ◌<◌, ◌≡◌, refl, sym, subst, ap, ◌∙◌, String, str_eq, str_eq_iff, Bool, true,
  false, not, ◌&&◌, Bool-cases, Option, Option-cases, some, some_inj, inl, inr, List, [], ◌∷◌, All,
  count, ltb, ◌==◌, Result, ok, >>-ok, >>=-ok, guard, ok_inj, err_ne_ok, arith,
}
use vpp_backend.Prelude.Bytes.{Bytes}
use vpp_backend.Prelude.Sort.{sort-Permᴰ, count-Permᴰ, All-Permᴰ}
use vpp_backend.Decision.Tables.{
  OutboxStatus, OutboxRow, Tables, PlanError, is_claimable, update_where, select_where, take_where,
  one_row, StepRow, PlanRow, ObjectiveRow,
}
use vpp_backend.Decision.Claim.{
  Claim, is_leased, is_due, first_due, row_less, claimable_rows, unchanged, claimed_row, load_claim,
  claim_once, claim_key, expire_claimed, found,
}
use vpp_backend.Decision.Claim.Due.{count-select_where}
use vpp_backend.Decision.Marks.{release_outbox, released_row, is_own}
use vpp_backend.Decision.Marks.Rows.{
  Released, submitted-Released, uncertain-Released, stale-Released, failed-Released,
}
use vpp_backend.Decision.Marks.{mark_submitted, mark_uncertain, mark_stale, mark_failed}

-- The row would be claimed at `now`.
abbrev pub is_open : ℕ → OutboxRow → Bool
is_open now r = is_claimable r.status && is_due now r

All-select_where {ℓ} :
    {A : Type ℓ} (q : A → Bool) (xs : List A) → All (λ x. q x ≡ true) (select_where q xs)
unfolding select_where
All-select_where q [] = tt
All-select_where q (x ∷ xs) = elim (Bool-cases (q x)) [
  | inl e ↦ rw e (e, All-select_where q xs)
  | inr e ↦ rw e (All-select_where q xs)
]

first_due_sound :
    (rows : List OutboxRow) (now : ℕ) {row : OutboxRow}
    → All (λ (r : OutboxRow). is_claimable r.status ≡ true) rows
    → first_due rows now ≡ some row
    → (is_open now row ≡ true) × ((q : OutboxRow → Bool) → q row ≡ true → 1 ≤ count q rows)
unfolding first_due is_due
first_due_sound [] now h e = cc
first_due_sound (r ∷ rows) now h e = elim (Bool-cases (ltb now r.available_at)) [
  | inl early ↦
      let (open_row, counted) = first_due_sound rows now h.1 (rw (early, first_due) at e) in
      (open_row, λ q k. ground (arith, counted q k))
  | inr available ↦ elim (Bool-cases (is_leased r.lease_until now)) [
    | inl leased ↦
        let (open_row, counted) =
          first_due_sound rows now h.1 (rw (available, leased, first_due) at e) in
        (open_row, λ q k. ground (arith, counted q k))
    | inr free ↦
        let same = some_inj.0 (rw (available, free, first_due) at e) in
        (
          subst (λ (x : OutboxRow). is_open now x ≡ true) same (ground (arith, h.0)),
          λ q k. let here = subst (λ x. q x ≡ true) (sym same) k in ground arith,
        )
  ]
]

-- Rows that stop passing `p` when they pass the test.
count-update_where-fewer {ℓ} :
    {A : Type ℓ} (p test : A → Bool) (f : A → A)
    → ((x : A) → p (f x) ≡ false)
    → (xs : List A) → count p (update_where test f xs) + count (λ x. test x && p x) xs ≤ count p xs
unfolding update_where
count-update_where-fewer p test f h [] = omega arith
count-update_where-fewer p test f h (x ∷ xs) =
    ground (arith, count-update_where-fewer p test f h xs, h x)

count_mono {ℓ} :
    {A : Type ℓ} (p q : A → Bool)
    → ((x : A) → p x ≡ true → q x ≡ true)
    → (xs : List A) → count p xs ≤ count q xs
count_mono p q h [] = omega arith
count_mono p q h (x ∷ xs) = ground (arith, count_mono p q h xs, h x)

-- Among the rows that the query returns, as many pass a test as are claimable and pass it.
pub count-claimable_rows :
    (id_less : String → String → Bool) (q : OutboxRow → Bool) (rows : List OutboxRow)
    → count q (claimable_rows id_less rows)
      ≡ count (λ (r : OutboxRow). is_claimable r.status && q r) rows
unfolding claimable_rows
count-claimable_rows id_less q rows =
    count-Permᴰ q
      (sort-Permᴰ (row_less id_less) (select_where (λ (r : OutboxRow). is_claimable r.status) rows))
    ∙ count-select_where q (λ (r : OutboxRow). is_claimable r.status) rows

claimable_rows-claimable :
    (id_less : String → String → Bool) (rows : List OutboxRow)
    → All (λ (r : OutboxRow). is_claimable r.status ≡ true) (claimable_rows id_less rows)
unfolding claimable_rows
claimable_rows-claimable id_less rows =
    All-Permᴰ (λ (r : OutboxRow). is_claimable r.status ≡ true)
      (sort-Permᴰ (row_less id_less) (select_where (λ (r : OutboxRow). is_claimable r.status) rows))
      (All-select_where (λ (r : OutboxRow). is_claimable r.status) rows)

unchanged_refl : (row : OutboxRow) → is_claimable row.status ≡ true → unchanged row row ≡ true
unfolding unchanged
unchanged_refl row h = ground (arith, (str_eq_iff row.id row.id).1 refl)

-- A claimed row is not due while its lease runs.
claimed_not_open :
    (worker : String) (now lease token : ℕ) (r : OutboxRow)
    → 0 < lease
    → is_open now (claimed_row worker (now + lease) token r) ≡ false
unfolding is_due is_leased
claimed_not_open worker now lease token r h = ground arith

-- The claim of a row that is due leaves fewer of them.
claim-fewer :
    (id_less : String → String → Bool) (rows : List OutboxRow) (row : OutboxRow) (worker : String)
    (now lease token : ℕ)
    → 0 < lease
    → first_due (claimable_rows id_less rows) now ≡ some row
    → suc (
        count
          (is_open now)
          (update_where (unchanged row) (claimed_row worker (now + lease) token) rows))
      ≤ count (is_open now) rows
claim-fewer id_less rows row worker now lease token h e =
    let (open_row, counted) = first_due_sound _ now (claimable_rows-claimable id_less rows) e in
    let same = unchanged_refl row (ground arith) in
    let here = counted (λ r. unchanged row r && is_open now r) (ground arith) in
    let moved = count-claimable_rows id_less (λ r. unchanged row r && is_open now r) rows in
    let kept =
      count_mono (λ (r : OutboxRow). is_claimable r.status && (unchanged row r && is_open now r))
        (λ r. unchanged row r && is_open now r) (λ x k. ground arith) rows in
    let fewer =
      count-update_where-fewer (is_open now) (unchanged row)
        (claimed_row worker (now + lease) token) (λ r. claimed_not_open worker now lease token r h)
        rows in
    omega arith

module _ {V : Type 0} (id_less : String → String → Bool) where
  pub load_claim-outbox :
      (t : Tables V) (execution_id : String) (out : OutboxRow) (worker : String) (token : ℕ)
      {r : Claim V × Tables V}
      → load_claim id_less t execution_id out worker token ≡ ok r
      → r.1.outbox ≡ t.outbox
  unfolding load_claim
  load_claim-outbox t execution_id out worker token {r} e =
      let (step, _, e₁) =
        >>=-ok (found (take_where (λ (s : StepRow). str_eq s.id out.step_id) t.steps)) _ e in
      let (plan, _, e₂) =
        >>=-ok (found (take_where (λ (p : PlanRow). str_eq p.id out.plan_id) t.plans)) _ e₁ in
      let (objective, _, e₃) =
        >>=-ok
          (found (take_where (λ (o : ObjectiveRow). str_eq o.id plan.objective_id) t.objectives)) _
          e₂ in
      let (key, _, done) = >>=-ok (claim_key step.id (expire_claimed step.id t.executions)) _ e₃ in
      ap (λ (x : Claim V × Tables V). x.1.outbox) (sym (ok_inj done))

  -- A claim of what the query returns leaves fewer rows that are due.
  pub claim_once-fewer :
      (t : Tables V) (execution_id worker : String) (now lease : ℕ) {r : Claim V × Tables V}
      → 0 < lease
      → claim_once id_less t (claimable_rows id_less t.outbox) execution_id worker now lease ≡ ok r
      → suc (count (is_open now) r.1.outbox) ≤ count (is_open now) t.outbox
  unfolding claim_once
  claim_once-fewer t execution_id worker now lease {r} h e =
      elim (Option-cases (first_due (claimable_rows id_less t.outbox) now)) [
        | inl none_due ↦ absurd (err_ne_ok (rw (none_due, claim_once) at e))
        | inr (row, due) ↦
            let e₁ = rw (due, claim_once) at e in
            let loaded =
              (>>-ok (guard (not (count (unchanged row) t.outbox == 0)) PlanError.contended) _
                e₁).1 in
            let same = load_claim-outbox _ execution_id row worker (row.lease_token + 1) loaded in
            subst (λ rows. suc (count (is_open now) rows) ≤ count (is_open now) t.outbox) (sym same)
              (claim-fewer id_less t.outbox row worker now lease (row.lease_token + 1) h due)
      ]

module _ {V : Type 0} where
  -- A release to a row that is not due adds none.
  Released-no_more :
      (claim : Claim V) (now : ℕ) (t t' : Tables V) (status : OutboxStatus)
      (available_at : Option ℕ)
      → ((r : OutboxRow) → is_open now (released_row status available_at r) ≡ false)
      → Released claim now t t' status available_at
      → count (is_open now) t'.outbox ≤ count (is_open now) t.outbox
  unfolding release_outbox
  Released-no_more claim now t t' status available_at h r =
      let made = ok_inj (>>-ok (one_row (is_own claim) r.before.outbox) _ r.done).1 in
      let fewer =
        count-update_where-fewer (is_open now) (is_own claim) (released_row status available_at) h
          r.before.outbox in
      subst (λ (x : Tables V). count (is_open now) x.outbox ≤ count (is_open now) t.outbox) made
        (subst
          (λ rows.
            count (is_open now)
              (update_where (is_own claim) (released_row status available_at) r.before.outbox)
            ≤ count (is_open now) rows)
          r.same (omega (arith, fewer)))

  -- What a worker writes at the end of an execution: one of the four marks.
  pub data Recorded (claim : Claim V) (now retry_at : ℕ) (t : Tables V)
      : Result PlanError (Tables V) → Type 0 where
    submitted :
        (task_id : String) → Recorded claim now retry_at t (mark_submitted claim task_id now t)
    uncertain :
        (cause : Bytes) → Recorded claim now retry_at t (mark_uncertain claim cause now retry_at t)
    stale : (cause : Bytes) → Recorded claim now retry_at t (mark_stale claim cause now t)
    failed : (cause : Bytes) → Recorded claim now retry_at t (mark_failed claim cause now t)

  -- Whatever is written, no row becomes due.
  pub Recorded-no_more :
      {claim : Claim V} {now retry_at : ℕ} {t : Tables V} {r : Result PlanError (Tables V)}
      → now < retry_at
      → Recorded claim now retry_at t r
      → {t' : Tables V} → r ≡ ok t'
      → count (is_open now) t'.outbox ≤ count (is_open now) t.outbox
  unfolding is_due is_leased
  Recorded-no_more {claim} {now} {retry_at} {t} h (Recorded.submitted task_id) {t'} e =
      Released-no_more claim now t t' _ _ (λ r. ground arith)
        (submitted-Released claim task_id now t t' e)
  Recorded-no_more {claim} {now} {retry_at} {t} h (Recorded.uncertain cause) {t'} e =
      Released-no_more claim now t t' _ _ (λ r. ground arith)
        (uncertain-Released claim cause now retry_at t t' e)
  Recorded-no_more {claim} {now} {retry_at} {t} h (Recorded.stale cause) {t'} e =
      Released-no_more claim now t t' _ _ (λ r. ground arith)
        (stale-Released claim cause now t t' e)
  Recorded-no_more {claim} {now} {retry_at} {t} h (Recorded.failed cause) {t'} e =
      Released-no_more claim now t t' _ _ (λ r. ground arith)
        (failed-Released claim cause now t t' e)
