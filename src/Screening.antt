-- ===== src/Screening.antt =====
-- screening/: the controlled results, sources and reasons of a screening record.
pub mod Reasons
pub mod Outputs
pub mod Loading
pub mod Validation
mod Tests
