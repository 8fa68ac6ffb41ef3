-- ===== src/Engine.antt =====
-- internal/syncengine
pub mod Disk
pub mod Exclude
pub mod Copy
pub mod Plan
pub mod Samples
mod Tests
