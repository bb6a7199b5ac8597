-- ===== src/Telemetry.antt =====
-- src/deliveries/telemetry: the frames that a real aircraft sends, the flight recorder, and the
-- recall of an aircraft that can no longer fly home.
mod Phases
mod Energy
mod Recorder
mod Ingest
pub mod Kept
pub mod Guards
pub mod Recall
unfoldable pub use Phases.*
unfoldable pub use Energy.*
unfoldable pub use Recorder.*
unfoldable pub use Ingest.*
