-- ===== src/Cases/Tests.antt =====
-- A small database and runs of the case workflow on it (src/vulnops/cases/service.py).
pub mod Rows
pub mod Moves
pub mod Decisions
pub mod Owners
