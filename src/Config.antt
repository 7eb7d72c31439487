-- ===== src/Config.antt =====
-- config/: the declared identities of the configuration.
pub mod Issn
pub mod Journals
mod Tests
