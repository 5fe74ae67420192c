-- ===== src/Plugin.antt =====
-- pluginapi/validate.go: what a plugin may say of itself, and the paths in its package.
mod Tests
pub mod Paths
pub mod Inside
pub mod Descriptor
pub mod Decision
pub mod Valid
