-- ===== src/Runtime.antt =====
-- The run-time library, src/lib: a machine with its states and transitions.
pub mod Mempool
pub mod Types
pub mod Search
pub mod Outcome
pub mod Build
pub mod Init
pub mod Callback
pub mod Transition
pub mod Start
pub mod Free
mod Tests
mod Checks
