-- ===== src/Deliveries.antt =====
-- src/deliveries/deliveries.service.ts: the life of a delivery.
mod Transition
mod Termination
mod Cancel
mod Exceptions
mod Handoff
pub mod Stable
pub mod Moves
pub mod Operations
pub mod Confirm
pub mod Lifecycle
pub mod Ledgers
pub mod Settled
pub mod Attempts
pub mod Aircraft
pub mod Failed
unfoldable pub use Transition.*
unfoldable pub use Termination.*
unfoldable pub use Cancel.*
unfoldable pub use Exceptions.*
unfoldable pub use Handoff.*
