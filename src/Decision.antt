-- ===== src/Decision.antt =====
-- internal/decision: the outbox of plan steps and the worker that hands them to Dispatch.
pub mod Tables
pub mod Claim
pub mod Marks
pub mod Execute
pub mod Tick
pub mod Protocol
pub mod Cooldown
pub mod Objective
pub mod Allocation
pub mod Plan
pub mod Save
mod Tests
