-- ===== src/Payments.antt =====
-- src/payments/payments.service.ts: the card payment of a delivery, and the Stripe webhooks.
mod Defs
pub mod Webhook
unfoldable pub use Defs.*
