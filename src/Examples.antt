-- ===== src/Examples.antt =====
-- The theorems at concrete inputs, and tests of the definitions.
mod Data
mod Runs
mod Money
mod Codes
mod Queues
mod Orders
mod Flights
mod Skies
mod Refunds
mod Schedules
