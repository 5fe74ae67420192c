-- ===== src/Binding.antt =====
-- internal/binding/manager.go: bindings of a left plugin and a right plugin.
mod Tests
pub mod Negotiate
pub mod Agreement
pub mod Manager
pub mod Upkeep
pub mod Dispatch
pub mod Steps
pub mod Kept
pub mod Shut
pub mod Once
pub mod Created
pub mod Answered
