-- ===== src/Catalog.antt =====
-- internal/plugin/catalog: the installed plugin versions, and the references that keep them in use.
pub mod Reference
pub mod Records
pub mod Sound
pub mod Operations
pub mod Install
pub mod InUse
mod Tests
