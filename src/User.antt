-- ===== src/User.antt =====
-- The user programs and their library.
pub mod Grep
pub mod Printf
pub mod Shell
pub mod Ulib
