-- ===== src/Resource/Job/Attempts.antt =====
-- The row of a job in the hands of workers and users, who read and write it one after another in any
-- order: how often it starts, and when a retry is planned.
use vpp_backend.Prelude.{
  ℕ, ◌+◌, ◌≤◌, ◌<◌, ℤ, ◌-ℤ◌, ◌≡◌, refl, subst, sym, ◌∙◌, Bool-cases, inl, inr, some_inj,
  some_ne_none, ◌&&◌, ◌||◌, String, is_empty_text, Bool, true, false, not, Option, none, some, ok,
  >>-ok, ◌>>◌, guard, guard-ok, ok_inj, arith,
}
use vpp_backend.Prelude.Bytes.{Bytes}
use vpp_backend.Resource.Job.{
  Job, JobStatus, JobError, new_job, start, update_progress, complete, fail, reset_job_for_retry,
  can_retry_job, claim_job, is_claimable_job, is_running_job, is_retry_time, is_stuck,
  stuck_job_timeout, is_pending_job, is_failed_job, is_empty_bytes,
}

-- A history of the job with the number of its starts. A refused call leaves the job as it was.
pub data History (j₀ : Job) : ℕ → Job → Type 0 where
  fresh : History j₀ 0 j₀
  started :
      {n : ℕ} {j j' : Job} (now : ℤ) → History j₀ n j → start now j ≡ ok j' → History j₀ (n + 1) j'
  claimed :
      {n : ℕ} {j j' : Job} (now : ℤ)
      → History j₀ n j
      → claim_job now j ≡ some j'
      → History j₀ (n + 1) j'
  progressed :
      {n : ℕ} {j : Job} (succeeded failed_count : ℤ)
      → History j₀ n j
      → History j₀ n (update_progress succeeded failed_count j)
  completed :
      {n : ℕ} {j : Job} (now total succeeded failed_count : ℤ) (result_json : Bytes)
      → History j₀ n j
      → History j₀ n (complete now total succeeded failed_count result_json j)
  failed :
      {n : ℕ} {j : Job} (now : ℤ) (error_msg : String)
      → History j₀ n j
      → History j₀ n (fail now error_msg j)
  reset : {n : ℕ} {j j' : Job} → History j₀ n j → reset_job_for_retry j ≡ ok j' → History j₀ n j'

abbrev is_planned : Option ℤ → Bool
is_planned none = false
is_planned (some t) = true

-- The job has started `n` times, at most three, a waiting one less often; a retry is planned exactly
-- while it has failed.
pub record Tracked (n : ℕ) (j : Job) : Type 0 where
  pub counted : j.attempts ≡ n
  pub limit : j.max_attempts ≡ 3
  pub bounded : n ≤ 3
  pub waiting : is_pending_job j.status ≡ true → n < 3
  pub planned : is_planned j.next_retry_at ≡ is_failed_job j.status

new_job-Tracked :
    (id tenant_id op_type target_type : String) (payload : Bytes) (j : Job)
    → new_job id tenant_id op_type target_type payload ≡ ok j
    → Tracked 0 j
unfolding new_job
new_job-Tracked id tenant_id op_type target_type payload j e =
    let made =
      (>>-ok
        (guard (not (is_empty_text id)) JobError.id_required
          >> guard (not (is_empty_text tenant_id)) JobError.tenant_required
          >> guard (not (is_empty_text op_type)) JobError.operation_required
          >> guard (not (is_empty_text target_type)) JobError.target_required
          >> guard (not (is_empty_bytes payload)) JobError.payload_required)
        _ e).1 in
    subst (Tracked 0) (ok_inj made) (record {
      counted = refl;
      limit = refl;
      bounded = omega arith;
      waiting = λ _. omega arith;
      planned = refl;
    })

pending_not_failed :
    (status : JobStatus) → is_pending_job status ≡ true → is_failed_job status ≡ false
pending_not_failed JobStatus.pending h = refl
pending_not_failed JobStatus.running h = refl
pending_not_failed JobStatus.success h = refl
pending_not_failed JobStatus.failed h = cc
pending_not_failed (JobStatus.other s) h = refl

start-Tracked :
    (n : ℕ) (now : ℤ) (j j' : Job) → Tracked n j → start now j ≡ ok j' → Tracked (n + 1) j'
unfolding start
start-Tracked n now j j' t e =
    let (allowed, e₁) = >>-ok (guard (is_pending_job j.status) JobError.cannot_start) _ e in
    let waits = guard-ok (is_pending_job j.status) JobError.cannot_start allowed in
    let less = t.waiting waits in
    subst (Tracked (n + 1)) (ok_inj e₁) (record {
      counted = omega (arith, t.counted);
      limit = t.limit;
      bounded = omega arith;
      waiting = λ h. cc;
      planned = t.planned ∙ pending_not_failed j.status waits;
    })

claimable_status :
    (status : JobStatus) (p q : Bool)
    → ((is_pending_job status && p) || (is_running_job status && q)) ≡ true
    → is_failed_job status ≡ false
claimable_status JobStatus.pending p q h = refl
claimable_status JobStatus.running p q h = refl
claimable_status JobStatus.success p q h = refl
claimable_status JobStatus.failed p q h = cc
claimable_status (JobStatus.other s) p q h = refl

claimable_not_failed :
    (now : ℤ) (j : Job)
    → is_claimable_job now j ≡ true
    → (j.attempts < j.max_attempts) × (is_failed_job j.status ≡ false)
unfolding is_claimable_job
claimable_not_failed now j h = (
  ground arith,
  claimable_status j.status (is_retry_time now j.next_retry_at)
      (is_stuck (now -ℤ stuck_job_timeout) j.started_at) (ground arith),
)

claim_job-Tracked :
    (n : ℕ) (now : ℤ) (j j' : Job) → Tracked n j → claim_job now j ≡ some j' → Tracked (n + 1) j'
unfolding claim_job
claim_job-Tracked n now j j' t e = elim (Bool-cases (is_claimable_job now j)) [
  | inl open_job ↦
      let (less, status) = claimable_not_failed now j open_job in
      let limit = t.limit in
      let counted = t.counted in
      subst (Tracked (n + 1)) (some_inj.0 (rw (open_job, claim_job) at e)) (record {
        counted = omega arith;
        limit = t.limit;
        bounded = omega arith;
        waiting = λ h. cc;
        planned = t.planned ∙ status;
      })
  | inr closed_job ↦ absurd (some_ne_none (sym (rw (closed_job, claim_job) at e)))
]

reset-Tracked : (n : ℕ) (j j' : Job) → Tracked n j → reset_job_for_retry j ≡ ok j' → Tracked n j'
unfolding reset_job_for_retry can_retry_job
reset-Tracked n j j' t e =
    let (allowed, e₁) = >>-ok (guard (can_retry_job j) JobError.cannot_be_retried) _ e in
    let retries = guard-ok (can_retry_job j) JobError.cannot_be_retried allowed in
    let limit = t.limit in
    let counted = t.counted in
    subst (Tracked n) (ok_inj e₁) (record {
      counted = t.counted;
      limit = t.limit;
      bounded = t.bounded;
      waiting = λ _. ground arith;
      planned = refl;
    })

History-Tracked : {j₀ : Job} {n : ℕ} {j : Job} → Tracked 0 j₀ → History j₀ n j → Tracked n j
unfolding update_progress complete fail
History-Tracked t History.fresh = t
History-Tracked t (History.started now h e) = start-Tracked _ now _ _ (History-Tracked t h) e
History-Tracked t (History.claimed now h e) = claim_job-Tracked _ now _ _ (History-Tracked t h) e
History-Tracked t (History.progressed s f h) =
    let k = History-Tracked t h in
    record {
      counted = k.counted;
      limit = k.limit;
      bounded = k.bounded;
      waiting = k.waiting;
      planned = k.planned;
    }
History-Tracked t (History.completed now total s f r h) =
    let k = History-Tracked t h in
    record {
      counted = k.counted;
      limit = k.limit;
      bounded = k.bounded;
      waiting = λ e. cc;
      planned = refl;
    }
History-Tracked t (History.failed now msg h) =
    let k = History-Tracked t h in
    record {
      counted = k.counted;
      limit = k.limit;
      bounded = k.bounded;
      waiting = λ e. cc;
      planned = refl;
    }
History-Tracked t (History.reset h e) = reset-Tracked _ _ _ (History-Tracked t h) e

-- However it is claimed and its operations are called after its creation, one after another, a job counts its starts and starts at most
-- three times, a waiting one can start again, and a retry is planned exactly while it has failed.
pub new_job-History-Tracked :
    (id tenant_id op_type target_type : String) (payload : Bytes) (n : ℕ) (j₀ j : Job)
    → new_job id tenant_id op_type target_type payload ≡ ok j₀
    → History j₀ n j
    → Tracked n j
new_job-History-Tracked id tenant_id op_type target_type payload n j₀ j e h =
    History-Tracked (new_job-Tracked id tenant_id op_type target_type payload j₀ e) h
