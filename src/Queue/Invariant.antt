-- ===== src/Queue/Invariant.antt =====
-- A well-formed queue, what its history never undoes, and that every operation keeps both.
pub mod Defs
pub mod Slots
pub mod Commands
pub mod Completions
pub mod Rounds
