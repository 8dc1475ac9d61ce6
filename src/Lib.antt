-- ===== src/Lib.antt =====
-- A model of the core of the virtual power plant backend: the dispatch service, which sends device
-- commands and follows them to their end, the gateway's copy of the point bindings, which it needs
-- to send them to a device, the alarm tickets that events open, with their store, the scope of control
-- units that a plan may command, the split of a power target over them, and the outbox from which the
-- steps of a plan go to dispatch.
--
-- A task is a list of actions and an action a list of commands. SubmitTask builds and saves a task,
-- starts its first action and sends that action's commands; HandleCommandResult and TimeoutScanner
-- take results and expired deadlines over, and CancelTask withdraws what has not been sent. All of
-- them run the dispatcher on a task in memory, which tells what changed and what to send next, and
-- then write the changed rows, publish an event and send the next commands. The gateway resolves a
-- command with the bindings of its CU, from a cache that resource events invalidate, and translates
-- the samples of a device back. A plan is made for the revision of a resolved scope, and is saved with
-- its objective, the cooldown of its policy and the outbox in one transaction; a worker claims its
-- steps under a lease, submits each for the same revision, and records what became of it.
-- The alarm service evaluates an event to a decision; its store opens a ticket or merges the event
-- into the open one, once for each event id, and a ticket that is new is announced.
--
--   Prelude: shared names, lists, integers, results, texts, bytes, decimals, orders and sorting.
--   Dispatch/Model: the records and enumerations of internal/dispatch/domain/model.
--   Dispatch/Command, Action, Task: the methods of control_command.go, command_value.go,
--     dispatch_action.go and dispatch_task.go; under Task the order of the actions and the search by id.
--   Dispatch/Dispatcher: internal/dispatch/domain/service/dispatcher.go, with its properties below.
--   Dispatch/Invariant: what holds of a task between two calls.
--   Dispatch/Validator: internal/dispatch/domain/service/validator.go.
--   Dispatch/Store: what the Update operations of internal/dispatch/domain/port write.
--   Dispatch/Helper: internal/dispatch/application/command/dispatch_helper.go.
--   Dispatch/Handlers, Submit: the handlers of handle_command_result.go, scan_timeouts.go,
--     cancel_task.go and submit_task.go beside it.
--   Gateway/Binding, Cache: internal/gateway/domain/binding/binding.go and cache.go.
--   Gateway/Floats, Downlink: internal/gateway/domain/binding/downlink.go; the operations of float64
--     are a parameter.
--   Gateway/Uplink: internal/gateway/domain/binding/uplink.go.
--   Contracts: the metric ids and access modes of api/contracts.
--   Contracts/Capability, Revision: capability_specs.go and revision.go beside them.
--   Resource/Scope: internal/resource/domain/model/scope.go, with its operations in Classify.
--   Resource/Job: internal/resource/domain/model/job.go, and the claim of a job in
--     internal/resource/infrastructure/persistent/postgres/job_repo.go.
--   Decision/Tables, Claim, Marks: the outbox of plan steps in
--     internal/decision/adapter/outbound/postgres/plan_repository.go.
--   Decision/Execute: internal/decision/application/command/plan_execution_loop.go; Decision/Tick: `Tick`
--     of the same file.
--   Decision/Cooldown: internal/decision/adapter/outbound/postgres/cooldown_store.go.
--   Decision/Protocol: the lease of an outbox row as a protocol, which the tables implement.
--   Alarm: the ticket of internal/alarm/domain/model (alarm.go, enums.go, decision.go); Lifecycle has
--     its invariant.
--   Alarm/Incoming: incoming.go, fingerprint.go and attributes.go of internal/alarm/domain/model.
--   Alarm/Evaluate: internal/alarm/domain/service.
--   Alarm/Store: sql.go and alarm_repository.go of internal/alarm/adapter/outbound/postgres.
--   Alarm/Ingest, Commands: ingest_event.go, acknowledge.go and close.go of
--     internal/alarm/application/command.
--   Decision/Allocation: internal/decision/domain/allocation/heuristic.go, with `distribute` in
--     Distribute, the caps and the clamp in Limits; the operations of float64 are a parameter.
--   Decision/Objective, Plan: internal/decision/domain/objective/objective.go and plan/plan.go beside it.
--   Decision/Save: `Save` of plan_repository.go, with the rows of models_plan.go beside it.
--
-- A pointer into a task is a place in its slices, which are never reordered; a method that mutates
-- its receiver returns the new value. On an error the handlers drop the task in memory, so an error
-- carries none. A call of a repository, the publisher, the gateway or the clock is answered by a
-- parameter, by the number of the call. A wall-clock time is an integer of nanoseconds; its overflow
-- is not modelled. The cache's operations each hold its lock, so other callers are sequences of
-- operations between them; its epochs wrap at 2^64.
--
-- The loop that sends commands runs on fuel. `rounds` of Helper/Loop, the queue's length and the
-- square of the number of waiting commands, is enough, since an entry of the queue that adds others
-- leaves fewer commands waiting. A pass of `tick` in Decision/Tick runs on fuel too: one more than
-- the rows that are due is enough, since every round leaves fewer of them.
--
-- A transaction on the outbox is a function of the tables that keeps them on an error. What a worker
-- read before its update is an argument, so another worker can have come between. Where a program
-- looks at the bytes of a string, the string is the list of its bytes.
--
-- The split of a power target in Decision/Allocation/Distribute runs on fuel as well: one more than
-- the active slots is enough, since every round that does not end the loop makes a slot inactive.
--
-- Not modelled: the Kafka, gRPC and MQTT adapters, SQL but for the outbox, the cooldowns, the jobs and
-- the alarm tables, configuration, logs and metrics, generated code, a failing database under the
-- outbox and the alarm tables (under the saving of a plan its answer is an argument), the policies, the
-- collection of a context and the planner of the decision service, and the services for forecast,
-- resource (but for the scope and the jobs) and telemetry.
pub mod Alarm
pub mod Contracts
pub mod Decision
pub mod Dispatch
pub mod Gateway
pub mod Prelude
pub mod Resource
