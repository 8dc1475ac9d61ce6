-- ===== src/Dispatch/Submit/Tests.antt =====
-- A request with one action of one command.
use vpp_backend.Prelude.{
  ℕ, zero, suc, pos, ◌≡◌, refl, ap, String, true, false, [], ◌∷◌, none, some, is_blank,
}
use vpp_backend.Dispatch.Model.{TaskStatus, DispatchTask}
use vpp_backend.Dispatch.Invariant.{TaskInv}
use vpp_backend.Dispatch.Validator.{validate_task}
use vpp_backend.Dispatch.Helper.{Env, World, GatewayReply, start_task_and_first_action}
use vpp_backend.Dispatch.Submit.{Uuids, SubmitTask, new_defaults, build_task}
use vpp_backend.Dispatch.Submit.Built.{build_task-TaskInv}
use vpp_backend.Dispatch.Submit.Start.{Started, start_task_and_first_action-Started}

-- The n-th id is a row of n + 1 letters.
abbrev letters : Uuids
letters zero = "u"
letters (suc n) = String.◌∷◌ "u" (letters n)

letters_ne_empty : (n : ℕ) → letters n ≡ "" → ⊥
letters_ne_empty zero e = cc
letters_ne_empty (suc n) e = cc

letters_injective : (m n : ℕ) → letters m ≡ letters n → m ≡ n
letters_injective zero zero e = refl
letters_injective zero (suc n) e = absurd (letters_ne_empty n (cc))
letters_injective (suc m) zero e = absurd (letters_ne_empty m (cc))
letters_injective (suc m) (suc n) e = ap suc (letters_injective m n (cc))

abbrev request : SubmitTask
request = record {
  tenant_id = "t1";
  name = "shed load";
  description = "";
  kind = none;
  trigger_type = none;
  actions =
      record {
        name = "open breaker";
        kind = none;
        sequence = pos 1;
        execution_policy = none;
        commands =
            record {
              cu_code = "cu-1";
              point_key = "switch";
              value = record {
                bool_value = some true;
                int_value = none;
                float_value = none;
                string_value = none;
              };
              timeout = pos 0;
              max_retries = pos 0;
            }
            ∷ [];
      }
      ∷ [];
  idempotency_key = "";
}

abbrev built : DispatchTask
built = build_task (new_defaults (pos 0) (pos 0)) letters request (pos 9)

built-TaskInv : TaskInv built
unfolding validate_task is_blank build_task new_defaults
built-TaskInv =
    (build_task-TaskInv (pos 0) (pos 0) letters request letters_injective (pos 9) refl).0

build_task-TaskInv_example : TaskInv built × (built.status ≡ TaskStatus.pending)
unfolding validate_task is_blank build_task new_defaults
build_task-TaskInv_example =
    build_task-TaskInv (pos 0) (pos 0) letters request letters_injective (pos 9) refl

-- The third call of a service fails.
abbrev flaky : Env
flaky = record {
  execute = λ n c. GatewayReply.nil_result;
  succeeds = λ n. elim n [ zero ↦ true | suc m ↦ elim m [ zero ↦ true | suc k ↦ false ] ];
  now = λ n. pos n;
}

abbrev saved : World
saved = record { task = built; store = built; events = []; tick = 0 }

start_task_and_first_action-Started_example : Started (start_task_and_first_action flaky saved)
unfolding build_task
start_task_and_first_action-Started_example =
    start_task_and_first_action-Started flaky saved built-TaskInv refl refl
