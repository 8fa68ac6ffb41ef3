-- ===== src/Controller.antt =====
-- internal/controller
pub mod Backoff
pub mod Conditions
pub mod Validate
pub mod Profiles
pub mod Ref
pub mod Discovery
pub mod Rbac
pub mod Metadata
pub mod Steps
pub mod Reconcile
mod Tests
