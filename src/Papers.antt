-- ===== src/Papers.antt =====
-- papers/: the rules on the facts of a paper.
pub mod Fields
mod Tests
