-- ===== src/Dispatch/Dispatcher/Waiting.antt =====
-- What `CommandsToDispatch` leaves to wait for.
use vpp_backend.Prelude.{
  ℕ, suc, ◌≡◌, refl, Bool, true, false, not, List, [], ◌∷◌, All, arith, is_empty,
}
use vpp_backend.Dispatch.Model.{ActionStatus, CommandStatus, ControlCommand, DispatchAction}
use vpp_backend.Dispatch.Command.{is_pending, is_sending, is_terminal}
use vpp_backend.Dispatch.Action.{places, any_status, commands_to_dispatch, all_commands_finished}
use vpp_backend.Dispatch.Invariant.{CommandInv}

-- No place is listed exactly where no status passes.
places-is_empty :
    (p : CommandStatus → Bool) (j : ℕ) (cs : List ControlCommand)
    → is_empty (places p j cs) ≡ not (any_status p cs)
unfolding places any_status
places-is_empty p j [] = refl
places-is_empty p j (c ∷ cs) = ground (arith, places-is_empty p (suc j) cs)

-- In a running action, what is not finished is pending or awaited.
running_unfinished :
    (cs : List ControlCommand)
    → All (CommandInv ActionStatus.running) cs
    → any_status (λ s. not (is_terminal s)) cs ≡ true
    → any_status is_pending cs ≡ false
    → any_status is_sending cs ≡ true
unfolding any_status
running_unfinished [] h u p = cc
running_unfinished (c ∷ cs) h u p = ground (arith, running_unfinished cs h.1)

-- An action with nothing to dispatch that is not finished awaits a result.
pub commands_to_dispatch-waits :
    (a : DispatchAction)
    → All (CommandInv ActionStatus.running) a.commands
    → is_empty (commands_to_dispatch a) ≡ true
    → all_commands_finished a ≡ false
    → any_status is_sending a.commands ≡ true
unfolding commands_to_dispatch all_commands_finished
commands_to_dispatch-waits a h e u =
    ground (arith, places-is_empty is_pending 0 a.commands, running_unfinished a.commands h)

-- A finished running action without a failure has only succeeded commands.
pub finished-CommandInv :
    (cs : List ControlCommand)
    → All (CommandInv ActionStatus.running) cs
    → any_status (λ s. not (is_terminal s)) cs ≡ false
    → All (CommandInv ActionStatus.completed) cs
unfolding any_status
finished-CommandInv [] h u = tt
finished-CommandInv (c ∷ cs) h u = ground (arith, finished-CommandInv cs h.1)

-- A fresh action has something to dispatch.
none_sending :
    (cs : List ControlCommand)
    → All (CommandInv ActionStatus.pending) cs
    → any_status is_sending cs ≡ false
unfolding any_status
none_sending [] h = refl
none_sending (c ∷ cs) h = ground (arith, none_sending cs h.1)

some_pending :
    (cs : List ControlCommand)
    → All (CommandInv ActionStatus.pending) cs
    → is_empty cs ≡ false
    → any_status is_pending cs ≡ true
unfolding any_status
some_pending [] h e = cc
some_pending (c ∷ cs) h e = ground arith

pub commands_to_dispatch-fresh :
    (a : DispatchAction)
    → All (CommandInv ActionStatus.pending) a.commands
    → is_empty a.commands ≡ false
    → is_empty (commands_to_dispatch a) ≡ false
unfolding commands_to_dispatch
commands_to_dispatch-fresh a h e = ground (
  arith,
  places-is_empty is_pending 0 a.commands,
  none_sending a.commands h,
  some_pending a.commands h e,
)
