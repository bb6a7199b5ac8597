-- ===== src/Lifetime.antt =====
-- Any run of the service: the calls that end in src/deliveries/deliveries.service.ts and the drivers
-- of the flights (simulation, telemetry, commands, watchdog, the reaper of orphans), one after another, while the clock
-- moves.
pub mod Kept
pub mod Safety
use drovery_backend.Base.{ℕ, Bool, Option, none, some, List}
use drovery_backend.Base.Int.{ℤ}
use drovery_backend.Base.Text.{Text}
use drovery_backend.Store.{Db, Delivery, FailureReason, DeliveryStatus, CommandType}
use drovery_backend.Serviceability.{ServiceabilityResult}
use drovery_backend.Dispatch.{Distance, MissionRoute}
use drovery_backend.Deliveries.{
  cancel, admin_force_cancel, fail_exceptional, begin_return_to_base, complete_return_to_base,
  admin_fail, confirm_handoff,
}
use drovery_backend.Deliveries.Moves.{AreLive}
use drovery_backend.Booking.{Flags, CreateRequest, create}
use drovery_backend.Commands.{issue, fetch_pending, ack}
use drovery_backend.Simulation.{KickoffJob, handle_stage, handle_position, handle_kickoff}
use drovery_backend.Telemetry.{TelemetryMessage, ingest}
use drovery_backend.Watchdog.{scan_and_reap}
use drovery_backend.Orphans.{sweep}

-- A caller of `failExceptional` names the live statuses that it may fail from.
pub data Call : Type 0 where
  create_call : Flags → ℕ → CreateRequest → Call
  cancel_call : ℕ → ℕ → Call
  force_cancel_call : ℕ → Call
  fail_call : (id : ℕ) → FailureReason → (allowed : List DeliveryStatus) → AreLive allowed → Call
  begin_return_call : ℕ → FailureReason → Call
  complete_return_call : ℕ → Call
  admin_fail_call : ℕ → FailureReason → Call
  confirm_call : ℕ → ℕ → Text → Call
  stage_call : ℕ → MissionRoute → ℕ → Call
  position_call : ℕ → ℤ → ℤ → Call
  kickoff_call : Bool → (MissionRoute → ServiceabilityResult) → KickoffJob → Call
  ingest_call : ℕ → TelemetryMessage → Call
  issue_call : ℕ → Option ℕ → ℕ → CommandType → Option FailureReason → Call
  fetch_call : ℕ → Call
  ack_call : ℕ → ℕ → Bool → Call
  watchdog_call : (Delivery → ℕ) → Call
  sweep_call : Call

module _ (distance : Distance) (digest : Text → ℕ) where
  -- The database that a call leaves, whether it returns or throws.
  unfoldable pub run : Call → Db → Db
  unfolding create cancel admin_force_cancel fail_exceptional begin_return_to_base
      complete_return_to_base admin_fail confirm_handoff handle_stage handle_position handle_kickoff
      ingest issue fetch_pending ack scan_and_reap sweep
  run (create_call flags uid r) db = (create distance flags uid r db).1
  run (cancel_call uid id) db = (cancel uid id db).1
  run (force_cancel_call id) db = (admin_force_cancel id none db).1
  run (fail_call id reason allowed live) db = (fail_exceptional id reason allowed none db).1
  run (begin_return_call id reason) db = (begin_return_to_base id reason db).1
  run (complete_return_call id) db = (complete_return_to_base id db).1
  run (admin_fail_call id reason) db = (admin_fail id reason none db).1
  run (confirm_call uid id code) db = (confirm_handoff digest uid id code db).1
  run (stage_call id coords index) db = (handle_stage id coords index db).1
  run (position_call id lat lng) db = (handle_position id lat lng db).1
  run (kickoff_call live check job) db = (handle_kickoff distance live check job db).1
  run (ingest_call command_id msg) db = (ingest distance command_id msg db).1
  run (issue_call id admin did type reason) db = (issue id admin did type reason none db).1
  run (fetch_call drone) db = (fetch_pending drone db).1
  run (ack_call id drone accepted) db = (ack id drone accepted db).1
  run (watchdog_call updated_at) db = (scan_and_reap updated_at db).1
  run sweep_call db = (sweep db).1

  -- The second database is reached from the first.
  pub data Reaches : Db → Db → Type 0 where
    here : {a : Db} → Reaches a a
    called : {a b : Db} → Reaches a b → (c : Call) → Reaches a (run c b)
    waited : {a b : Db} → Reaches a b → (now : ℕ) → Reaches a (record b { now = now })
