-- ===== src/Lifetime/Safety.antt =====
-- What every run of the service keeps.
use drovery_backend.Base.{ℕ, true, Option, none, some, List, ◌≡◌, refl, arith}
use drovery_backend.Base.Text.{Text}
use drovery_backend.Base.Table.{find}
use drovery_backend.Store.{Db, Delivery, delivery_key, status_eq}
use drovery_backend.Wallet.Reconcile.{IsReconciled}
use drovery_backend.Dispatch.{Distance}
use drovery_backend.Dispatch.Claims.{Allocated}
use drovery_backend.Deliveries.Operations.{
  cancel-Keeps, fail_exceptional-Keeps, begin_return_to_base-Keeps, complete_return_to_base-Keeps,
}
use drovery_backend.Deliveries.Confirm.{
  admin_force_cancel-Keeps, admin_fail-Keeps, confirm_handoff-Keeps,
}
use drovery_backend.Deliveries.Lifecycle.{HasAdvanced, Advanced, Later}
use drovery_backend.Deliveries.Ledgers.{IsTallied}
use drovery_backend.Deliveries.Attempts.{HandoffsSound}
use drovery_backend.Deliveries.Settled.{is_settled}
use drovery_backend.Booking.Books.{IsBookable, create-Keeps}
use drovery_backend.Booking.Keepers.{
  Allocated-IsBookable, IsReconciled-IsBookable, IsTallied-IsBookable, HasAdvanced-IsBookable,
  HandoffsSound-IsBookable,
}
use drovery_backend.Commands.Driven.{IsDriven, IgnoresFrames}
use drovery_backend.Commands.Kept.{issue-Keeps, fetch_pending-Keeps, ack-Keeps}
use drovery_backend.Simulation.Kept.{
  handle_stage-Keeps, handle_position-Keeps, handle_kickoff-Keeps,
}
use drovery_backend.Telemetry.Kept.{ingest-Keeps}
use drovery_backend.Watchdog.Kept.{scan_and_reap-Keeps}
use drovery_backend.Lifetime.Kept.{
  Allocated-IsDriven, IsReconciled-IsDriven, IsTallied-IsDriven, HandoffsSound-IsDriven,
  HasAdvanced-IsDriven, HasOneOpen-IsBookable,
}
use drovery_backend.Commands.Acks.{HasOneOpen, HasOneOpen-IsDriven}
use drovery_backend.Orphans.Kept.{sweep-Keeps}
use drovery_backend.Lifetime.{
  Call, create_call, cancel_call, force_cancel_call, fail_call, begin_return_call,
  complete_return_call, admin_fail_call, confirm_call, stage_call, position_call, kickoff_call,
  ingest_call, issue_call, fetch_call, ack_call, watchdog_call, sweep_call, run, Reaches, here,
  called, waited,
}

-- An invariant that every call keeps, and the clock.
record IsKept (P : Db → Type 0) : Type 0 where
  bookable : IsBookable P
  driven : IsDriven P
  frames : IgnoresFrames P
  waits : (db : Db) (now : ℕ) → P db → P (record db { now = now })

module _ (distance : Distance) (digest : Text → ℕ) (P : Db → Type 0) (k : IsKept P) where
  run-Keeps : (c : Call) (db : Db) → P db → P (run distance digest c db)
  unfolding run
  run-Keeps (create_call flags uid r) db h =
      create-Keeps distance P k.bookable (k.driven.dispatches distance) flags uid r db h
  run-Keeps (cancel_call uid id) db h = cancel-Keeps P k.bookable.stable uid id db h
  run-Keeps (force_cancel_call id) db h =
      admin_force_cancel-Keeps P k.bookable.stable none (λ _ db h. h) id db h
  run-Keeps (fail_call id r xs live) db h =
      fail_exceptional-Keeps P k.bookable.stable none (λ _ db h. h) id r xs live db h
  run-Keeps (begin_return_call id r) db h = begin_return_to_base-Keeps P k.bookable.stable id r db h
  run-Keeps (complete_return_call id) db h =
      complete_return_to_base-Keeps P k.bookable.stable id db h
  run-Keeps (admin_fail_call id r) db h =
      admin_fail-Keeps P k.bookable.stable none (λ _ db h. h) id r db h
  run-Keeps (confirm_call uid id code) db h =
      confirm_handoff-Keeps P k.bookable.stable digest uid id code db h
  run-Keeps (stage_call id coords index) db h = handle_stage-Keeps P k.driven id coords index db h
  run-Keeps (position_call id lat lng) db h = handle_position-Keeps P k.driven id lat lng db h
  run-Keeps (kickoff_call live check job) db h =
      handle_kickoff-Keeps P k.driven distance live check job db h
  run-Keeps (ingest_call cid msg) db h = ingest-Keeps P k.driven distance k.frames cid msg db h
  run-Keeps (issue_call id admin did type r) db h = issue-Keeps P k.driven id admin did type r db h
  run-Keeps (fetch_call drone) db h = fetch_pending-Keeps P k.driven drone db h
  run-Keeps (ack_call id drone accepted) db h = ack-Keeps P k.driven id drone accepted db h
  run-Keeps (watchdog_call updated_at) db h = scan_and_reap-Keeps P k.driven updated_at db h
  run-Keeps sweep_call db h = sweep-Keeps P k.driven.stable.settling db h

  reaches-Keeps : {a b : Db} → Reaches distance digest a b → P a → P b
  reaches-Keeps here h = h
  reaches-Keeps (called s c) h = run-Keeps c _ (reaches-Keeps s h)
  reaches-Keeps (waited s now) h = k.waits _ now (reaches-Keeps s h)

-- The invariants of the wallet, the fleet, the promo codes, the handoff and the commands.
pub record IsSafe (db : Db) : Type 0 where
  pub reconciled : IsReconciled db
  pub allocated : Allocated db
  pub tallied : IsTallied db
  pub handoffs : HandoffsSound db
  pub one_open : HasOneOpen db

IsReconciled-IsKept : IsKept IsReconciled
IsReconciled-IsKept = record {
  bookable = IsReconciled-IsBookable;
  driven = IsReconciled-IsDriven;
  frames = λ db fs h. record { keyed = h.keyed; accounted = h.accounted };
  waits = λ db now h. record { keyed = h.keyed; accounted = h.accounted };
}

Allocated-IsKept : IsKept Allocated
Allocated-IsKept = record {
  bookable = Allocated-IsBookable;
  driven = Allocated-IsDriven;
  frames = λ db fs h. h;
  waits = λ db now h. h;
}

IsTallied-IsKept : IsKept IsTallied
IsTallied-IsKept = record {
  bookable = IsTallied-IsBookable;
  driven = IsTallied-IsDriven;
  frames = λ db fs h. h;
  waits = λ db now h. h;
}

handoffs-IsKept : IsKept HandoffsSound
handoffs-IsKept = record {
  bookable = HandoffsSound-IsBookable;
  driven = HandoffsSound-IsDriven;
  frames = λ db fs h. h;
  waits = λ db now h. h;
}

one_open-IsKept : IsKept HasOneOpen
one_open-IsKept = record {
  bookable = HasOneOpen-IsBookable;
  driven = HasOneOpen-IsDriven;
  frames = λ db fs h. h;
  waits = λ db now h. h;
}

advanced-IsKept : (before : List Delivery) → IsKept (HasAdvanced before)
advanced-IsKept before = record {
  bookable = HasAdvanced-IsBookable before;
  driven = HasAdvanced-IsDriven before;
  frames = λ db fs h. h;
  waits = λ db now h. h;
}

-- Whatever calls are made, in whatever order and with whatever result, the balances match the
-- ledger, each aircraft has one delivery and each delivery one aircraft at most, the promo counters
-- are exact, no delivery has counted more than five wrong codes, a delivered one has a confirmed
-- handoff, and none has two open commands. The calls are the bookings, the operations on a delivery,
-- the jobs of the simulation, the telemetry frames, the commands and the ticks of the watchdog.
pub Reaches-IsSafe :
    (distance : Distance) (digest : Text → ℕ) {a b : Db}
    → Reaches distance digest a b
    → IsSafe a
    → IsSafe b
Reaches-IsSafe distance digest s h = record {
  reconciled = reaches-Keeps distance digest IsReconciled IsReconciled-IsKept s h.reconciled;
  allocated = reaches-Keeps distance digest Allocated Allocated-IsKept s h.allocated;
  tallied = reaches-Keeps distance digest IsTallied IsTallied-IsKept s h.tallied;
  handoffs = reaches-Keeps distance digest HandoffsSound handoffs-IsKept s h.handoffs;
  one_open = reaches-Keeps distance digest HasOneOpen one_open-IsKept s h.one_open;
}

Later-refl : (o : Option Delivery) → Later o o
Later-refl none = tt
Later-refl (some d) = ground arith

-- Whatever calls are made, every delivery stays, and its status stays or moves on along its life:
-- none goes back.
pub Reaches-Advanced :
    (distance : Distance) (digest : Text → ℕ) {a b : Db}
    → Reaches distance digest a b
    → Advanced a.deliveries b.deliveries
Reaches-Advanced distance digest {a} s =
    reaches-Keeps distance digest (HasAdvanced a.deliveries) (advanced-IsKept a.deliveries) s
      (λ id. Later-refl (find delivery_key id a.deliveries))

still_settled :
    (d : Delivery) (o : Option Delivery)
    → is_settled d ≡ true
    → Later (some d) o
    → (e : Delivery) × (o ≡ some e) × (status_eq e.status d.status ≡ true)
still_settled d none s h = absurd h
still_settled d (some e) s h = (e, refl, ground arith)

-- A delivery that has ended keeps its status for good, whatever calls follow.
pub settled_for_good :
    (distance : Distance) (digest : Text → ℕ) {a b : Db} (id : ℕ) (d : Delivery)
    → Reaches distance digest a b
    → find delivery_key id a.deliveries ≡ some d
    → is_settled d ≡ true
    → (e : Delivery) × (find delivery_key id b.deliveries ≡ some e)
      × (status_eq e.status d.status ≡ true)
settled_for_good distance digest {a} {b} id d s f settled =
    still_settled d (find delivery_key id b.deliveries) settled
      (rw f at (Reaches-Advanced distance digest s id))
