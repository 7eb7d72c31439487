-- ===== src/Eligibility.antt =====
-- eligibility/: which processing step a paper is eligible for, and why not.
pub mod Models
pub mod Facts
pub mod Emptiness
pub mod Decision
pub mod Rules
pub mod Batch
mod Tests
