-- ===== src/Webhooks.antt =====
-- internal/webhooks.
pub mod Types
pub mod Store
pub mod Dispatcher
pub mod Delivery
pub mod Signed
