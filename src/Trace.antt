-- ===== src/Trace.antt =====
-- internal/trace and internal/scenario: the numbered events of a run, and the versions of a scenario.
pub mod Events
pub mod Lines
pub mod Numbered
pub mod Documents
pub mod Versions
mod Tests
