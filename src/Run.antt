-- ===== src/Run.antt =====
-- internal/run/manager.go: the manager of the runs of a named job.
mod Tests
pub mod Log
pub mod Command
pub mod Manager
pub mod Course
pub mod Written
pub mod Steps
pub mod Ended
pub mod Runs
pub mod Final
pub mod Launch
pub mod Verdict
