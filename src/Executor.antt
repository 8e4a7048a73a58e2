-- ===== src/Executor.antt =====
-- `TestExecutor` of scripts/auto-retry-tests.py: it builds the command of a run, starts it, reads the
-- log and cleans up.
pub mod Log
pub mod Naming
pub mod Command
pub mod Run
