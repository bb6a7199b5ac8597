-- ===== src/Lib.antt =====
-- A model of the Drovery backend: the bookings, the life of a delivery, the aircraft, and the
-- money that goes with them.
--
-- A customer books a delivery: the booking is priced, takes a promo slot and wallet credits, claims
-- an aircraft, writes the delivery under a fresh tracking id, and charges the card. The delivery
-- then goes through its statuses until it is delivered, canceled, failed or back at base; each end
-- hands the aircraft back and, where the fault is not the recipient's, returns the money. Stripe's
-- webhooks advance the payment, and the outbox grants the referral rewards.
--
-- Files, and the code that each is about (paths from the repository's root):
--   Base: Boolean tests, lists, tables of rows with the statements findFirst, count and updateMany,
--     and text, over the native numbers.
--   Store: the database of prisma/schema.prisma as one record of tables (Rows), its enumerations
--     and the status sets of src/deliveries (Status), the errors (Errors), service calls as
--     functions from a database to a result and a database, with transactions that roll back
--     (Monad), and the rules for invariants (Invariants).
--   Wallet: src/wallet/wallet.service.ts. credit_within_tx, debit_within_tx,
--     maybe_grant_referral_reward_within_tx, refund_for_delivery and refund_charge_to_wallet are
--     the methods of those names.
--   Promo: src/promo/promo.service.ts. compute_discount, validate_for_redeem, check_code
--     (checkRedeemable), redeem_within_tx and release_for_delivery.
--   Dispatch: src/dispatch. Feasibility and Ranking are flight-feasibility.ts, Service is
--     dispatch.service.ts (dispatch, select_and_claim, release).
--   Pricing: src/pricing/pricing.service.ts and src/common/package-limits.ts.
--   Payments: src/payments/payments.service.ts, create_delivery_payment and handle_webhook_event.
--   Outbox: src/outbox/outbox.service.ts, enqueue_within_tx and dispatch_due. Dispatching
--     and Reaping are about a tick and about its reaper.
--   Deliveries: src/deliveries/deliveries.service.ts. Cancel (cancel, admin_force_cancel),
--     Exceptions (fail_exceptional, begin_return_to_base, complete_return_to_base, admin_fail),
--     Handoff (confirm_handoff), Termination (cleanup_after_termination, announce_exception).
--     Stable is the interface of an invariant that their statements keep; Operations and Confirm
--     prove the operations from it, and Lifecycle, Ledgers and Attempts fill it.
--   Booking: create of the same service. Sizing is the part that only reads, Create the rest. Books
--     is the interface of an invariant that a booking keeps, and Keepers fills it.
--   Commands: src/deliveries/commands/drone-command.service.ts (issue, fetch_pending, ack). Driven is
--     the interface of an invariant that every driver of a flight keeps; Kept proves the commands
--     from it.
--   Serviceability: src/serviceability. Check is check_serviceability, Airspace is airspace.service.ts
--     (in_force_zones) with its cache. Exact is what a verdict means, and Fresh is about runs of calls
--     that share the cache.
--   Tracking: update_tracking of src/deliveries/tracking/tracking.service.ts.
--   Simulation: src/deliveries/simulation. Timeline is the stages, the position ticks and the ids of
--     the queue's jobs; Stages and Kickoff are the handlers of simulation.processor.ts (handle_stage,
--     handle_position, handle_kickoff), Preflight the verdict before a launch. Hold, Redelivery and
--     Race are what becomes of a launch that is put off, of a job that comes twice, and of a launch
--     that a cancel overtakes.
--   Telemetry: src/deliveries/telemetry. Ingest is telemetry.service.ts, Recorder is
--     flight-recorder.service.ts, Energy is energy.ts. Guards and Recall are about what a frame must
--     meet, and when an aircraft is sent home.
--   Watchdog: src/delivery-watchdog/delivery-watchdog.ts (scan_and_reap and its three steps). Scan is
--     about which deliveries it fails.
--   Orphans: src/deliveries/orphan-reaper (sweep, reap_if_orphan). Spares is about what the sweep
--     leaves, and Returns and Sweeps about what it gives back.
--   Recurring: src/recurring-deliveries. Rule is recurrence.ts (compute_next_occurrence), Materializer
--     is recurring.materializer.ts (scan_and_materialize). Next is about the occurrence that is found
--     in a time zone of constant offset, and Once about two workers at one cursor.
--   Lifetime: any sequence of calls of the delivery service, the simulation's jobs, the telemetry, the
--     commands, the watchdog and the reaper of orphans, with the clock.
--   Examples: the theorems at a small database.
--
-- Conventions. An id is a number, since ids are only compared. Money is in cents, weights in grams,
-- distances in metres, times in milliseconds and promo values in hundredths, each a natural number
-- where the code has a number that is never negative; Math.round is written out. A table is a list
-- of rows, and one updateMany is one atomic step that counts the rows it matches. A call that
-- throws keeps what it wrote, unless it ran in a transaction. A step that the code only logs the
-- failure of is best_effort. The clock stands still during a call. Notifications and queue writes
-- are recorded as effects. Coordinates are in micro-degrees. A stage or kickoff job is a call of its
-- own, so a job that the queue delivers twice is two calls. The kickoff that is put off is the job
-- that the one before put into the queue: Hold follows it.
--
-- Parameters: the great-circle distance, the planar distance of a route to a circle, the weather
-- reports, the digest of a handoff code, the answers of the geocoder and Stripe, the column updatedAt
-- of a delivery, the offset of the time zone, and the random ids; the id of a booking is fresh, which
-- insert_delivery writes out as a refusal. The claim loop tries eight aircraft and the booking five
-- tracking ids, as the code does, and the watchdog takes two hundred rows a scan; all are recursion
-- on those lists, so no fuel is needed. The next occurrence is looked for on fourteen days, and a
-- cursor advances four hundred times at most, as in the code.
--
-- Not modelled: failures of the database and the network, except where a call is best-effort;
-- so neither is the write of a kickoff that fails after its claim; logs, metrics and translations;
-- the hot store of positions, which is off by default; the service that edits recurring deliveries
-- and the administration endpoints; the entrances of the telemetry, which check a key or a signature;
-- the parsing of dates and time zones, and zones west of Greenwich; reads that only format rows.
pub mod Base
pub mod Store
pub mod Wallet
pub mod Promo
pub mod Dispatch
pub mod Serviceability
pub mod Pricing
pub mod Payments
pub mod Outbox
pub mod Deliveries
pub mod Tracking
pub mod Simulation
pub mod Commands
pub mod Telemetry
pub mod Watchdog
pub mod Orphans
pub mod Booking
pub mod Recurring
pub mod Lifetime
mod Examples
