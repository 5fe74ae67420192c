-- ===== src/Mysql/Strategy.antt =====
-- plugins/right/mysql-mock/plugin.go, match.go and verification.go: the right plugin's strategy.
pub mod Plugin
pub mod Match
pub mod Slots
pub mod Complete
pub mod Verify
pub mod Verified
pub mod Again
pub mod Steps
pub mod Single
pub mod Ending
pub mod Refused
mod Tests
