-- ===== src/Dispatch.antt =====
-- The dispatch service (internal/dispatch): tasks of actions of device commands.
pub mod Model
pub mod Command
pub mod Action
pub mod Task
pub mod Dispatcher
pub mod Invariant
pub mod Validator
pub mod Store
pub mod Helper
pub mod Handlers
pub mod Submit
mod Tests
