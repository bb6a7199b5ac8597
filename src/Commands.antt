-- ===== src/Commands.antt =====
-- src/deliveries/commands/drone-command.service.ts: the commands that an operator sends to an
-- aircraft in flight.
mod Defs
pub mod Open
pub mod Driven
pub mod Kept
pub mod Acks
unfoldable pub use Defs.*
