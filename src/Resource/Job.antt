-- ===== src/Resource/Job.antt =====
-- internal/resource/domain/model/job.go: an asynchronous batch job; and the claim of a job by a worker
-- in internal/resource/infrastructure/persistent/postgres/job_repo.go. A time is an integer of
-- nanoseconds, the clock's reading an argument. The attempts and their limit are natural numbers: a new
-- job has 0 and 3, and only
-- `start` and `claim_job` count up.
pub mod Attempts
mod Tests
use vpp_backend.Prelude.{
  ℕ, ◌+◌, ℤ, pos, ◌+ℤ◌, ◌-ℤ◌, ltb_ℤ, ◌||◌, if◌then◌else◌, String, is_empty_text, Bool, true, false,
  not, ◌&&◌, Option, none, some, [], ◌∷◌, ltb, Result, ok, guard, ◌>>◌,
}
use vpp_backend.Prelude.Bytes.{Bytes}

pub data JobStatus : Type 0 where
  pending running success failed : JobStatus
  other : String → JobStatus

pub data JobError : Type 0 where
  id_required tenant_required operation_required target_required payload_required : JobError
  cannot_start cannot_be_retried : JobError

pub record Job : Type 0 where
  pub id : String
  pub tenant_id : String
  pub operation_type : String
  pub target_type : String
  pub status : JobStatus
  pub payload : Bytes
  pub total : ℤ
  pub succeeded : ℤ
  pub failed_count : ℤ
  pub error_msg : String
  pub result_json : Bytes
  pub attempts : ℕ
  pub max_attempts : ℕ
  pub started_at : Option ℤ
  pub finished_at : Option ℤ
  pub next_retry_at : Option ℤ

abbrev default_max_attempts : ℕ
default_max_attempts = 3

-- Five minutes.
abbrev retry_backoff_after_fail : ℤ
retry_backoff_after_fail = pos 300000000000

abbrev pub is_pending_job : JobStatus → Bool
is_pending_job JobStatus.pending = true
is_pending_job _ = false

abbrev pub is_running_job : JobStatus → Bool
is_running_job JobStatus.running = true
is_running_job _ = false

abbrev pub is_failed_job : JobStatus → Bool
is_failed_job JobStatus.failed = true
is_failed_job _ = false

abbrev pub is_empty_bytes : Bytes → Bool
is_empty_bytes [] = true
is_empty_bytes (b ∷ bs) = false

unfoldable pub new_job : String → String → String → String → Bytes → Result JobError Job
new_job id tenant_id op_type target_type payload =
    guard (not (is_empty_text id)) JobError.id_required
    >> guard (not (is_empty_text tenant_id)) JobError.tenant_required
    >> guard (not (is_empty_text op_type)) JobError.operation_required
    >> guard (not (is_empty_text target_type)) JobError.target_required
    >> guard (not (is_empty_bytes payload)) JobError.payload_required
    >> ok (record {
      id = id;
      tenant_id = tenant_id;
      operation_type = op_type;
      target_type = target_type;
      status = JobStatus.pending;
      payload = payload;
      total = pos 0;
      succeeded = pos 0;
      failed_count = pos 0;
      error_msg = "";
      result_json = [];
      attempts = 0;
      max_attempts = default_max_attempts;
      started_at = none;
      finished_at = none;
      next_retry_at = none;
    })

unfoldable pub start : ℤ → Job → Result JobError Job
start now j =
    guard (is_pending_job j.status) JobError.cannot_start
    >> ok
        (record j { status = JobStatus.running; attempts = j.attempts + 1; started_at = some now })

unfoldable pub update_progress : ℤ → ℤ → Job → Job
update_progress succeeded failed_count j = record j {
  succeeded = succeeded;
  failed_count = failed_count;
}

unfoldable pub complete : ℤ → ℤ → ℤ → ℤ → Bytes → Job → Job
complete now total succeeded failed_count result_json j = record j {
  status = JobStatus.success;
  total = total;
  succeeded = succeeded;
  failed_count = failed_count;
  result_json = result_json;
  finished_at = some now;
  next_retry_at = none;
}

unfoldable pub fail : ℤ → String → Job → Job
fail now error_msg j = record j {
  status = JobStatus.failed;
  error_msg = error_msg;
  finished_at = some now;
  next_retry_at = some (now +ℤ retry_backoff_after_fail);
}

unfoldable pub can_retry_job : Job → Bool
can_retry_job j = is_failed_job j.status && ltb j.attempts j.max_attempts

unfoldable pub reset_job_for_retry : Job → Result JobError Job
unfolding can_retry_job
reset_job_for_retry j =
    guard (can_retry_job j) JobError.cannot_be_retried
    >> ok (record j {
      status = JobStatus.pending;
      error_msg = "";
      started_at = none;
      finished_at = none;
      next_retry_at = none;
    })

-- `next_retry_at IS NULL OR next_retry_at <= now`.
abbrev pub is_retry_time : ℤ → Option ℤ → Bool
is_retry_time now none = true
is_retry_time now (some t) = not (ltb_ℤ now t)

-- `started_at < threshold`, which a missing time does not satisfy.
abbrev pub is_stuck : ℤ → Option ℤ → Bool
is_stuck threshold none = false
is_stuck threshold (some t) = ltb_ℤ t threshold

-- Ten minutes.
abbrev pub stuck_job_timeout : ℤ
stuck_job_timeout = pos 600000000000

-- The condition of the claim.
unfoldable pub is_claimable_job : ℤ → Job → Bool
is_claimable_job now j =
    ltb j.attempts j.max_attempts
    && ((is_pending_job j.status && is_retry_time now j.next_retry_at)
        || (is_running_job j.status && is_stuck (now -ℤ stuck_job_timeout) j.started_at))

-- `ClaimPendingJob` at the row that it finds.
unfoldable pub claim_job : ℤ → Job → Option Job
unfolding is_claimable_job
claim_job now j =
    if is_claimable_job now j
    then some
        (record j { status = JobStatus.running; attempts = j.attempts + 1; started_at = some now })
    else none
