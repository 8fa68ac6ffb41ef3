-- ===== src/Webhook.antt =====
-- internal/webhook
pub mod Json
pub mod Receiver
pub mod Inject
mod Tests
