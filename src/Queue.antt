-- ===== src/Queue.antt =====
-- internal/generation/queue.go: the bounded queue of requests that wait for a coding agent's data.
pub mod Types
pub mod Ops
pub mod Claim
pub mod Resolve
pub mod Life
pub mod Follows
pub mod Sections
pub mod Steps
pub mod Soundness
pub mod Capacity
pub mod Fencing
pub mod Leases
pub mod Removal
pub mod Again
pub mod Repeat
mod Tests
