-- ===== src/Dispatch.antt =====
-- src/dispatch: which aircraft flies a delivery, the claim on it, and its release.
mod Feasibility
mod Ranking
mod Service
pub mod Range
pub mod Order
pub mod Selection
pub mod Claims
pub mod Effects
unfoldable pub use Feasibility.*
unfoldable pub use Ranking.*
unfoldable pub use Service.*
