-- ===== src/Watchdog.antt =====
-- src/delivery-watchdog: what becomes of a live delivery whose aircraft has gone silent, and of the
-- commands that were left over.
mod Defs
pub mod Kept
pub mod Spares
pub mod Scan
unfoldable pub use Defs.*
