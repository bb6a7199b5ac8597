-- ===== src/Booking.antt =====
-- `create` of src/deliveries/deliveries.service.ts: from a request to a delivery that is written,
-- paid and started.
mod Sizing
mod Create
pub mod Split
pub mod Books
pub mod Keepers
pub mod Strand
unfoldable pub use Sizing.*
unfoldable pub use Create.*
