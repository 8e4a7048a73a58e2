-- ===== src/Tests.antt =====
-- Runs of scripts/auto-retry-tests.py and of the operator at small inputs.
pub mod Whole
pub mod Samples
pub mod Histories
pub mod Reports
pub mod Resumed
pub mod Wire
pub mod Pods
pub mod Sets
pub mod Lines
pub mod Launches
pub mod CommandLines
pub mod Rounds
