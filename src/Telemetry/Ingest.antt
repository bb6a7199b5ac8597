-- ===== src/Telemetry/Ingest.antt =====
-- src/deliveries/telemetry/telemetry.service.ts.
use drovery_backend.Base.{
  ℕ, Bool, true, false, not, Option, none, some, [], ◌∷◌, ◌&&◌, ◌||◌, ◌==?◌, is_some, get_or, leb,
  take, if◌then◌else◌,
}
use drovery_backend.Base.Int.{ℤ}
use drovery_backend.Base.Text.{Text}
use drovery_backend.Store.{
  Delivery, DeliveryStatus, DroneLabel, own_words, stage_label, DronePhase, happy, exception,
  HappyPhase, ExceptionPhase, FailureReason, mechanical, weather_abort, is_live, includes,
  position_frozen_statuses, failable_statuses, statuses_before, telemetry_latlng_pair_required,
  telemetry_not_live, telemetry_drone_not_assigned, Action, pure, gets, when, throw_if, best_effort,
  ◌>>=◌, ◌>>◌,
}
use drovery_backend.Dispatch.{Distance}
use drovery_backend.Deliveries.{
  find_delivery, update_delivery, status_in, set_status, fail_exceptional, begin_return_to_base,
  complete_return_to_base,
}
use drovery_backend.Tracking.{TrackingPosition, update_tracking, publish}
use drovery_backend.Telemetry.Phases.{
  TelemetryMessage, phase_to_status, exception_phase_to_status, in_bounds, drone_status_max_len,
}
use drovery_backend.Telemetry.Recorder.{RecorderContext, record_frame}

pub record IngestResult : Type 0 where
  pub applied : Bool
  pub status : Option DeliveryStatus

abbrev pub not_applied : IngestResult
not_applied = record { applied = false; status = none }

-- Both coordinates, and within bounds.
abbrev pub position_valid : Option ℤ → Option ℤ → Bool
position_valid none lng = false
position_valid (some lat) none = false
position_valid (some lat) (some lng) = in_bounds lat lng

-- The label of a happy phase, from the catalog.
abbrev pub phase_label : Option DronePhase → Option DroneLabel
phase_label none = none
phase_label (some (exception p)) = none
phase_label (some (happy p)) = some (stage_label (phase_to_status p))

-- The gateway's own label wins; an empty one is none.
abbrev pub resolve_drone_status : Option Text → Option DronePhase → Option DroneLabel
resolve_drone_status none phase = phase_label phase
resolve_drone_status (some []) phase = phase_label phase
resolve_drone_status (some (c ∷ s)) phase = some (own_words (take drone_status_max_len (c ∷ s)))

abbrev pub is_terminal_for_position : DeliveryStatus → Bool
is_terminal_for_position status = includes position_frozen_statuses status

unfoldable pub apply_exception : ℕ → ExceptionPhase → Option FailureReason → Action Bool
apply_exception delivery_id ExceptionPhase.failed reason =
    fail_exceptional delivery_id (get_or reason mechanical) failable_statuses none
apply_exception delivery_id ExceptionPhase.returning reason =
    begin_return_to_base delivery_id (get_or reason weather_abort)
apply_exception delivery_id ExceptionPhase.returned reason = complete_return_to_base delivery_id

abbrev pub exception_position : TelemetryMessage → TrackingPosition
exception_position msg = record {
  drone_lat = msg.lat;
  drone_lng = msg.lng;
  drone_status = resolve_drone_status msg.drone_status none;
  eta = msg.eta;
}

-- Route an exception to its transition, which owns the compare and set and the cleanup.
unfoldable pub ingest_exception : ℕ → ExceptionPhase → TelemetryMessage → Action IngestResult
unfolding apply_exception update_tracking
ingest_exception delivery_id phase msg = do
  applied ← apply_exception delivery_id phase msg.failure_reason
  when (applied && position_valid msg.lat msg.lng)
      (best_effort (update_tracking delivery_id (exception_position msg)))
  pure (record {
    applied = applied;
    status = if applied then some (exception_phase_to_status phase) else none;
  })

-- The forward compare and set of a happy phase: the status that it wrote, if it did.
unfoldable pub advance_phase : ℕ → Option HappyPhase → Action (Option DeliveryStatus)
advance_phase delivery_id none = pure none
advance_phase delivery_id (some p) = do
  won ←
      update_delivery delivery_id (status_in (statuses_before (phase_to_status p)))
        (set_status (phase_to_status p))
  pure (if leb 1 won then some (phase_to_status p) else none)

abbrev pub empty_position : TrackingPosition
empty_position = record { drone_lat = none; drone_lng = none; drone_status = none; eta = none }

abbrev pub happy_phase : Option HappyPhase → Option DronePhase
happy_phase none = none
happy_phase (some p) = some (happy p)

-- A position goes with a status that advanced, or stands alone while the delivery is not frozen.
abbrev pub position_allowed : Option HappyPhase → Option DeliveryStatus → DeliveryStatus → Bool
position_allowed phase advanced status =
    is_some advanced || (not (is_some phase) && not (is_terminal_for_position status))

abbrev pub frame_position : TelemetryMessage → Option HappyPhase → TrackingPosition
frame_position msg phase = record {
  drone_lat = msg.lat;
  drone_lng = msg.lng;
  drone_status = resolve_drone_status msg.drone_status (happy_phase phase);
  eta = msg.eta;
}

-- Write the position, or, for one out of bounds, only that the aircraft was heard.
unfoldable pub write_position :
    ℕ → TelemetryMessage → Option HappyPhase → Option DeliveryStatus → DeliveryStatus → Action Bool
unfolding update_tracking
write_position delivery_id msg phase advanced status =
    if position_valid msg.lat msg.lng
    then when (position_allowed phase advanced status)
        (best_effort (update_tracking delivery_id (frame_position msg phase)))
      >> pure (position_allowed phase advanced status)
    else when (is_some msg.lat && (is_some msg.lng && not (is_terminal_for_position status)))
        (best_effort (update_tracking delivery_id empty_position))
      >> pure false

unfoldable pub finish_frame :
    ℕ → TelemetryMessage → Option DeliveryStatus → Bool → Action IngestResult
finish_frame delivery_id msg advanced positioned =
    if not (is_some advanced) && not positioned
    then pure not_applied
    else publish delivery_id advanced (if positioned then msg.lat else none)
        (if positioned then msg.lng else none)
      >> pure (record { applied = true; status = advanced })

unfoldable pub ingest_happy :
    ℕ → Option HappyPhase → TelemetryMessage → DeliveryStatus → Action IngestResult
unfolding advance_phase write_position finish_frame
ingest_happy delivery_id phase msg status = do
  advanced ← advance_phase delivery_id phase
  positioned ← write_position delivery_id msg phase advanced status
  finish_frame delivery_id msg advanced positioned

unfoldable pub ingest_phase :
    ℕ → TelemetryMessage → DeliveryStatus → Option DronePhase → Action IngestResult
unfolding ingest_happy ingest_exception
ingest_phase delivery_id msg status none = ingest_happy delivery_id none msg status
ingest_phase delivery_id msg status (some (happy p)) = ingest_happy delivery_id (some p) msg status
ingest_phase delivery_id msg status (some (exception p)) = ingest_exception delivery_id p msg

abbrev pub context_of : Delivery → ℕ → RecorderContext
context_of d drone_id = record {
  delivery_id = d.id;
  drone_id = drone_id;
  status = d.status;
  package_weight = d.package_weight;
}

module _ (distance : Distance) where
  -- An unknown delivery is a benign no-op; one that is not live, or not flown by the sender, is
  -- refused before anything is written.
  unfoldable pub ingest_found : ℕ → TelemetryMessage → Option Delivery → Action IngestResult
  unfolding record_frame ingest_phase
  ingest_found command_id msg none = pure not_applied
  ingest_found command_id msg (some d) =
      throw_if (not (is_live d.tracking_source)) telemetry_not_live
      >> throw_if (not (d.assigned_drone_id ==? msg.drone_id)) telemetry_drone_not_assigned
      >> record_frame distance command_id (context_of d msg.drone_id) msg
      >> ingest_phase d.id msg d.status msg.phase

  unfoldable pub ingest : ℕ → TelemetryMessage → Action IngestResult
  unfolding ingest_found
  ingest command_id msg = do
    throw_if (is_some msg.lat && not (is_some msg.lng) || not (is_some msg.lat) && is_some msg.lng)
        telemetry_latlng_pair_required
    found ← gets (find_delivery msg.delivery_id)
    ingest_found command_id msg found
