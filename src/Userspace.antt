-- ===== src/Userspace.antt =====
-- natto64: the userspace crate that configures, attaches and observes a dataplane.
pub mod System
pub mod Error
pub mod Config
pub mod Metrics
pub mod Interfaces
pub mod Messages
pub mod Dataplane
pub mod Builder
