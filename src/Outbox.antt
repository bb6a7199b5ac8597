-- ===== src/Outbox.antt =====
-- src/outbox/outbox.service.ts: the transactional outbox, from which referral rewards are granted.
mod Defs
pub mod Dispatching
pub mod Reaping
unfoldable pub use Defs.*
