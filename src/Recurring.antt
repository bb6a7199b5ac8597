-- ===== src/Recurring.antt =====
-- src/recurring-deliveries: the next occurrence of a rule, and the deliveries that are made of them.
mod Rule
mod Materializer
pub mod Probe
pub mod Next
mod Later
mod Claims
pub mod Once
unfoldable pub use Rule.*
unfoldable pub use Materializer.*
