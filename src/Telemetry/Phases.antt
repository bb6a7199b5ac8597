-- ===== src/Telemetry/Phases.antt =====
-- src/deliveries/telemetry/telemetry.constants.ts.
use drovery_backend.Base.{ℕ, Bool, true, false, ◌&&◌, Option}
use drovery_backend.Base.Int.{ℤ, pos, negsuc, leb_ℤ}
use drovery_backend.Base.Text.{Text}
use drovery_backend.Store.{
  DeliveryStatus, DronePhase, happy, exception, HappyPhase, ExceptionPhase, FailureReason,
}

abbrev pub is_exception_phase : DronePhase → Bool
is_exception_phase (happy p) = false
is_exception_phase (exception p) = true

-- No phase leads to DELIVERED.
abbrev pub phase_to_status : HappyPhase → DeliveryStatus
phase_to_status HappyPhase.confirmed = DeliveryStatus.confirmed
phase_to_status HappyPhase.assigned = DeliveryStatus.drone_assigned
phase_to_status HappyPhase.pickup = DeliveryStatus.pickup_in_progress
phase_to_status HappyPhase.in_transit = DeliveryStatus.in_transit
phase_to_status HappyPhase.arrived = DeliveryStatus.awaiting_handoff

abbrev pub exception_phase_to_status : ExceptionPhase → DeliveryStatus
exception_phase_to_status ExceptionPhase.failed = DeliveryStatus.delivery_failed
exception_phase_to_status ExceptionPhase.returning = DeliveryStatus.returning
exception_phase_to_status ExceptionPhase.returned = DeliveryStatus.returned_to_base

-- The `eta` is the instant that the message's text parses to, if it does.
pub record TelemetryMessage : Type 0 where
  pub delivery_id : ℕ
  pub drone_id : ℕ
  pub phase : Option DronePhase
  pub lat : Option ℤ
  pub lng : Option ℤ
  pub drone_status : Option Text
  pub eta : Option ℕ
  pub altitude : Option ℤ
  pub battery_percent : Option ℕ
  pub airspeed : Option ℕ
  pub failure_reason : Option FailureReason

-- In micro-degrees.
abbrev pub lat_min : ℤ
lat_min = negsuc 89999999

abbrev pub lat_max : ℤ
lat_max = pos 90000000

abbrev pub lng_min : ℤ
lng_min = negsuc 179999999

abbrev pub lng_max : ℤ
lng_max = pos 180000000

abbrev pub in_bounds : ℤ → ℤ → Bool
in_bounds lat lng =
    leb_ℤ lat_min lat && (leb_ℤ lat lat_max && (leb_ℤ lng_min lng && leb_ℤ lng lng_max))

abbrev pub drone_status_max_len : ℕ
drone_status_max_len = 120
