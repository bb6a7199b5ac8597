-- ===== src/Simulation.antt =====
-- src/deliveries/simulation: the jobs that advance a delivery without a real aircraft, and the
-- kickoff of a delivery that is scheduled for later.
mod Timeline
mod Preflight
mod Stages
mod Kickoff
pub mod Kept
pub mod Settles
pub mod Hold
pub mod Race
pub mod Redelivery
unfoldable pub use Timeline.*
unfoldable pub use Preflight.*
unfoldable pub use Stages.*
unfoldable pub use Kickoff.*
