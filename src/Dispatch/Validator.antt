-- ===== src/Dispatch/Validator.antt =====
-- internal/dispatch/domain/service/validator.go. A slice holds no nil pointers: SubmitTask builds
-- every action and command itself.
use vpp_backend.Prelude.{
  ℤ, eqb_ℤ, Bool, false, ◌||◌, not, List, [], ◌∷◌, Result, ok, guard, ◌>>◌, is_empty, is_empty_text,
}
use vpp_backend.Dispatch.Model.{
  ControlCommand, DispatchAction, DispatchTask, Invalid, duplicate_sequence, action_name_required,
  action_needs_command,
}
use vpp_backend.Dispatch.Command
use vpp_backend.Dispatch.Task

unfoldable validate_command : ControlCommand → Result Invalid (Unit {0})
unfolding Command.validate
validate_command c = Command.validate c

-- The loop over an action's commands.
unfoldable validate_commands : List ControlCommand → Result Invalid (Unit {0})
unfolding validate_command
validate_commands [] = ok tt
validate_commands (c ∷ cs) = do validate_command c; validate_commands cs

unfoldable pub validate_action : DispatchAction → Result Invalid (Unit {0})
unfolding validate_commands
validate_action a = do
  guard (not (is_empty_text a.name)) action_name_required
  guard (not (is_empty a.commands)) action_needs_command
  validate_commands a.commands

-- The keys of `seqSet`.
unfoldable pub seen : ℤ → List ℤ → Bool
seen n [] = false
seen n (m ∷ ms) = eqb_ℤ n m || seen n ms

-- The loop over the actions, with the sequence numbers seen so far.
unfoldable pub validate_actions : List ℤ → List DispatchAction → Result Invalid (Unit {0})
unfolding seen validate_action
validate_actions ns [] = ok tt
validate_actions ns (a ∷ as') = do
  guard (not (seen a.sequence ns)) duplicate_sequence
  validate_action a
  validate_actions (a.sequence ∷ ns) as'

unfoldable pub validate_task : DispatchTask → Result Invalid (Unit {0})
unfolding Task.validate validate_actions
validate_task t = do Task.validate t; validate_actions [] t.actions
