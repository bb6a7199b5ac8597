-- ===== src/Promo.antt =====
-- src/promo/promo.service.ts: the discount, the checks on a code, the redemption inside the
-- delivery's transaction, and the release on cancel. Amounts are whole cents.
pub mod Discount
pub mod Cap
pub mod Release
pub mod Frame
mod Defs
unfoldable pub use Defs.*
