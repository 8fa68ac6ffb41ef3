-- ===== src/Ignition.antt =====
-- internal/ignition
pub mod Client
pub mod Designer
pub mod Laws
mod Tests
