-- ===== src/Dispatch/Store.antt =====
-- internal/dispatch/domain/port: what the three repositories write, as their interfaces document it.
-- The rows of one task are kept as a tree of the same shape; a row is named by its place.
use vpp_backend.Prelude.{
  ℕ, Option, none, some, ◌≡◌, ap, inl, inr, List, get_elem?, modify, set, modify-set, Option-cases,
}
use vpp_backend.Dispatch.Model.{ControlCommand, DispatchAction, DispatchTask}
use vpp_backend.Dispatch.Dispatcher.{CommandRef}

-- `CommandRepository.Update` writes the runtime fields of one command.
unfoldable write_command : ControlCommand → ControlCommand → ControlCommand
write_command c row = record row {
  status = c.status;
  retry_count = c.retry_count;
  sent_at = c.sent_at;
  deadline_at = c.deadline_at;
  finished_at = c.finished_at;
  result = c.result;
}

-- `ActionRepository.Update` writes the status of one action, and none of its commands.
unfoldable write_action : DispatchAction → DispatchAction → DispatchAction
write_action a row = record row { status = a.status }

-- `TaskRepository.Update` writes the row of the task alone.
unfoldable pub write_task : DispatchTask → DispatchTask → DispatchTask
write_task t row = record row {
  status = t.status;
  started_at = t.started_at;
  finished_at = t.finished_at;
}

unfoldable pub get_command : CommandRef → DispatchTask → Option ControlCommand
get_command r t = elim (get_elem? t.actions r.0) [ none ↦ none | some a ↦ get_elem? a.commands r.1 ]

-- The rows after the command, or the action, of `t` at a place has been written to them.
unfoldable pub save_command : CommandRef → DispatchTask → DispatchTask → DispatchTask
unfolding get_command write_command
save_command r t rows = elim (get_command r t) [
  | none ↦ rows
  | some c ↦ record rows {
    actions =
        modify (λ row. record row { commands = modify (write_command c) row.commands r.1 })
          rows.actions r.0;
  }
]

unfoldable pub save_action : ℕ → DispatchTask → DispatchTask → DispatchTask
unfolding write_action
save_action i t rows = elim (get_elem? t.actions i) [
  | none ↦ rows
  | some a ↦ record rows { actions = modify (write_action a) rows.actions i }
]

-- The task with another command at a place.
unfoldable pub put_at : CommandRef → ControlCommand → DispatchTask → DispatchTask
put_at r c t = record t {
  actions = modify (λ a. record a { commands = set a.commands r.1 c }) t.actions r.0;
}

pub get_command-some :
    (r : CommandRef) (t : DispatchTask) {c : ControlCommand}
    → get_command r t ≡ some c
    → (a : DispatchAction) × (get_elem? t.actions r.0 ≡ some a)
      × (get_elem? a.commands r.1 ≡ some c)
unfolding get_command
get_command-some r t e = elim (Option-cases (get_elem? t.actions r.0)) [
  | inl miss ↦ absurd (none_ne_some (rw (miss, get_command) at e))
  | inr (a, hit) ↦ (a, hit, rw (hit, get_command) at e)
]
  where
    none_ne_some : {x : ControlCommand} → none ≡ some x → ⊥
    none_ne_some h = cc

-- The write as one of the whole action.
pub put_at-set :
    (r : CommandRef) (t : DispatchTask) (c : ControlCommand) {a : DispatchAction}
    → get_elem? t.actions r.0 ≡ some a
    → put_at r c t
      ≡ record t { actions = set t.actions r.0 (record a { commands = set a.commands r.1 c }) }
unfolding put_at
put_at-set r t c e =
    ap (λ (l : List DispatchAction). record t { actions = l }) (modify-set _ t.actions r.0 e)
