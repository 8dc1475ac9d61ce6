-- ===== src/Resource/Job/Tests.antt =====
-- An import that fails once and is put back.
use vpp_backend.Prelude.{◌≡◌, refl, none, some, ok, pos, []}
use vpp_backend.Prelude.Bytes.{codes}
use vpp_backend.Resource.Job.{JobStatus, Job, new_job, claim_job, fail, reset_job_for_retry}
use vpp_backend.Resource.Job.Attempts.{History, Tracked, new_job-History-Tracked}

abbrev import_job : Job
import_job = record {
  id = "j";
  tenant_id = "tenant";
  operation_type = "import";
  target_type = "site";
  status = JobStatus.pending;
  payload = codes "[]";
  total = pos 0;
  succeeded = pos 0;
  failed_count = pos 0;
  error_msg = "";
  result_json = [];
  attempts = 0;
  max_attempts = 3;
  started_at = none;
  finished_at = none;
  next_retry_at = none;
}

abbrev running_job : Job
running_job = record import_job {
  status = JobStatus.running;
  attempts = 1;
  started_at = some (pos 5);
}

abbrev reset_job : Job
reset_job = record import_job { attempts = 1 }

created : new_job "j" "tenant" "import" "site" (codes "[]") ≡ ok import_job
unfolding new_job
created = refl

begun : claim_job (pos 5) import_job ≡ some running_job
unfolding claim_job
begun = refl

put_back : reset_job_for_retry (fail (pos 9) "no file" running_job) ≡ ok reset_job
unfolding reset_job_for_retry fail
put_back = refl

new_job-History-Tracked_example : Tracked 1 reset_job
new_job-History-Tracked_example =
    new_job-History-Tracked "j" "tenant" "import" "site" (codes "[]") 1 import_job reset_job created
      (History.reset
        (History.failed (pos 9) "no file" (History.claimed (pos 5) History.fresh begun)) put_back)
