-- ===== src/Tasks.antt =====
-- screening_tasks/: the attempts of a task.
pub mod Ledger
pub mod Rules
pub mod Service
pub mod Settlement
pub mod Integrity
pub mod Claims
pub mod Claimable
mod Tests
