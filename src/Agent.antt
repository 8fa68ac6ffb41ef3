-- ===== src/Agent.antt =====
-- internal/agent
pub mod Health
pub mod Watcher
pub mod Config
pub mod Retry
pub mod ConfigMaps
pub mod Context
pub mod Closures
pub mod Profile
pub mod State
pub mod Sync
pub mod Loop
mod Tests
