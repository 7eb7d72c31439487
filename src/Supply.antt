-- ===== src/Supply.antt =====
-- pi_supply/: the installed supplies of the model program.
pub mod Retention
mod Tests
