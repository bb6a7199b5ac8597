-- ===== src/Orphans.antt =====
-- src/deliveries/orphan-reaper: the sweep that gives back what a crashed booking had reserved.
mod Defs
pub mod Kept
pub mod Spares
mod Debited
pub mod Returns
pub mod Sweeps
unfoldable pub use Defs.*
