-- ===== src/Serviceability.antt =====
-- src/serviceability: whether a route may be flown now.
mod Airspace
mod Check
pub mod Fresh
pub mod Exact
unfoldable pub use Airspace.*
unfoldable pub use Check.*
