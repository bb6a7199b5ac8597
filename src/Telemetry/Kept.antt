-- ===== src/Telemetry/Kept.antt =====
-- The ingest of src/deliveries/telemetry/telemetry.service.ts and the flight recorder keep what every
-- driver of a flight keeps.
use drovery_backend.Base.{
  ℕ, Bool, false, not, Option, none, some, ◌&&◌, ◌||◌, ◌==?◌, ◌≡◌, refl, is_some, get_or, leb,
  if◌then◌else◌, arith,
}
use drovery_backend.Base.Table.{find_first}
use drovery_backend.Store.{
  Db, Delivery, Drone, DeliveryStatus, delivered, status_eq, HappyPhase, ExceptionPhase, DronePhase,
  happy, exception, FailureReason, mechanical, weather_abort, failable_statuses,
  returnable_statuses, includes, is_live, return_to_base, statuses_before,
  telemetry_latlng_pair_required, telemetry_not_live, telemetry_drone_not_assigned, pure, when,
  throw_if, best_effort, ◌>>◌,
}
use drovery_backend.Store.Invariants.{Keeps, >>=-Keeps, ite_Keeps, when-Keeps, throw_if-Keeps}
use drovery_backend.Dispatch.{Distance, holds}
use drovery_backend.Deliveries.{status_in, set_status, update_delivery, find_delivery}
use drovery_backend.Deliveries.Moves.{failable-AreLive}
use drovery_backend.Commands.Driven.{IsDriven, IsReading, IgnoresFrames}
use drovery_backend.Deliveries.Operations.{
  fail_exceptional-Keeps, begin_return_to_base-Keeps, complete_return_to_base-Keeps,
}
use drovery_backend.Commands.Kept.{issue-Keeps}
use drovery_backend.Tracking.{update_tracking}
use drovery_backend.Simulation.Kept.{stage_moves, update_tracking-Keeps}
use drovery_backend.Telemetry.Phases.{TelemetryMessage, phase_to_status}
use drovery_backend.Telemetry.Energy.{EnergyReading, assess_recall, recall}
use drovery_backend.Telemetry.Recorder.{
  RecorderContext, append_frame, has_position, freshened, update_drone_state, reading_of,
  is_cooling_down, reports_exception, auto_return, recall_drone, recall_if_needed, maybe_recall,
  record_frame,
}
use drovery_backend.Telemetry.Ingest.{
  not_applied, apply_exception, ingest_exception, advance_phase, write_position, finish_frame,
  ingest_happy, ingest_phase, context_of, ingest_found, ingest, position_valid, position_allowed,
  frame_position, empty_position, exception_position, is_terminal_for_position,
}

freshened-IsReading : (msg : TelemetryMessage) (now : ℕ) → IsReading (freshened msg now)
freshened-IsReading msg now = record {
  same_drone = λ d. refl;
  same_claim = λ d. refl;
  same_status = λ d. refl;
}

phase_never_delivers : (p : HappyPhase) → status_eq (phase_to_status p) delivered ≡ false
phase_never_delivers p = ground arith

module _ (P : Db → Type 0) (v : IsDriven P) where
  update_drone_state-Keeps :
      (ctx : RecorderContext) (msg : TelemetryMessage) → Keeps P (update_drone_state ctx msg)
  unfolding update_drone_state
  update_drone_state-Keeps ctx msg =
      when-Keeps P (has_position msg || is_some msg.battery_percent) _
        (λ db. v.reads ctx.delivery_id (freshened msg db.now) (freshened-IsReading msg db.now) db)

  auto_return-Keeps : (cid : ℕ) (ctx : RecorderContext) → Keeps P (auto_return cid ctx)
  unfolding auto_return
  auto_return-Keeps cid ctx db h =
      issue-Keeps P v cid none ctx.delivery_id return_to_base none _ (v.observes db db.tracking _ h)

  module _ (distance : Distance) where
    recall_drone-Keeps :
        (cid : ℕ) (ctx : RecorderContext) (r : EnergyReading) (o : Option Drone)
        → Keeps P (recall_drone distance cid ctx r o)
    unfolding recall_drone
    recall_drone-Keeps cid ctx r none db h = h
    recall_drone-Keeps cid ctx r (some d) db h =
        when-Keeps P (recall (assess_recall distance d r ctx.package_weight)) (auto_return cid ctx)
          (auto_return-Keeps cid ctx) db h

    recall_if_needed-Keeps :
        (cid : ℕ) (ctx : RecorderContext) (msg : TelemetryMessage) (o : Option EnergyReading)
        → Keeps P (recall_if_needed distance cid ctx msg o)
    unfolding recall_if_needed
    recall_if_needed-Keeps cid ctx msg none db h = h
    recall_if_needed-Keeps cid ctx msg (some r) db h =
        when-Keeps P
          (not (reports_exception msg.phase)
            && (includes returnable_statuses ctx.status
                && not (is_cooling_down ctx.delivery_id db)))
          (recall_drone distance cid ctx r (find_first (holds ctx.delivery_id) db.drones))
          (recall_drone-Keeps cid ctx r (find_first (holds ctx.delivery_id) db.drones)) db h

    -- What the recorder does once the frame is written.
    pub freshen-Keeps :
        (cid : ℕ) (ctx : RecorderContext) (msg : TelemetryMessage)
        → Keeps P (update_drone_state ctx msg >> maybe_recall distance cid ctx msg)
    unfolding maybe_recall
    freshen-Keeps cid ctx msg =
        >>=-Keeps P (update_drone_state ctx msg)
          (λ _. recall_if_needed distance cid ctx msg (reading_of msg))
          (update_drone_state-Keeps ctx msg)
          (λ _. recall_if_needed-Keeps cid ctx msg (reading_of msg))

  apply_exception-Keeps :
      (id : ℕ) (p : ExceptionPhase) (r : Option FailureReason) → Keeps P (apply_exception id p r)
  unfolding apply_exception
  apply_exception-Keeps id ExceptionPhase.failed r =
      fail_exceptional-Keeps P v.stable none (λ _ db h. h) id (get_or r mechanical)
        failable_statuses failable-AreLive
  apply_exception-Keeps id ExceptionPhase.returning r =
      begin_return_to_base-Keeps P v.stable id (get_or r weather_abort)
  apply_exception-Keeps id ExceptionPhase.returned r = complete_return_to_base-Keeps P v.stable id

  ingest_exception-Keeps :
      (id : ℕ) (p : ExceptionPhase) (msg : TelemetryMessage) → Keeps P (ingest_exception id p msg)
  unfolding ingest_exception
  ingest_exception-Keeps id p msg =
      >>=-Keeps P (apply_exception id p msg.failure_reason) _
        (apply_exception-Keeps id p msg.failure_reason)
        (λ applied.
          >>=-Keeps P
            (when (applied && position_valid msg.lat msg.lng)
              (best_effort (update_tracking id (exception_position msg))))
            _
            (when-Keeps P (applied && position_valid msg.lat msg.lng) _
              (update_tracking-Keeps P v id (exception_position msg)))
            (λ _ db h. h))

  advance_phase-Keeps : (id : ℕ) (o : Option HappyPhase) → Keeps P (advance_phase id o)
  unfolding advance_phase
  advance_phase-Keeps id none db h = h
  advance_phase-Keeps id (some p) db h =
      >>=-Keeps P
        (update_delivery id (status_in (statuses_before (phase_to_status p)))
          (set_status (phase_to_status p)))
        (λ won. pure (if leb 1 won then some (phase_to_status p) else none))
        (v.stable.updates id _ _ (stage_moves (phase_to_status p) (phase_never_delivers p)))
        (λ _ db h. h) db h

  write_position-Keeps :
      (id : ℕ) (msg : TelemetryMessage) (p : Option HappyPhase) (a : Option DeliveryStatus)
      (s : DeliveryStatus)
      → Keeps P (write_position id msg p a s)
  unfolding write_position
  write_position-Keeps id msg p a s =
      ite_Keeps P (position_valid msg.lat msg.lng)
        (when (position_allowed p a s) (best_effort (update_tracking id (frame_position msg p)))
          >> pure (position_allowed p a s))
        (when (is_some msg.lat && (is_some msg.lng && not (is_terminal_for_position s)))
            (best_effort (update_tracking id empty_position))
          >> pure false)
        (>>=-Keeps P _ (λ _. pure (position_allowed p a s))
          (when-Keeps P (position_allowed p a s)
            (best_effort (update_tracking id (frame_position msg p)))
            (update_tracking-Keeps P v id (frame_position msg p)))
          (λ _ db h. h))
        (>>=-Keeps P _ (λ _. pure false)
          (when-Keeps P (is_some msg.lat && (is_some msg.lng && not (is_terminal_for_position s)))
            (best_effort (update_tracking id empty_position))
            (update_tracking-Keeps P v id empty_position))
          (λ _ db h. h))

  finish_frame-Keeps :
      (id : ℕ) (msg : TelemetryMessage) (a : Option DeliveryStatus) (b : Bool)
      → Keeps P (finish_frame id msg a b)
  unfolding finish_frame
  finish_frame-Keeps id msg a b =
      ite_Keeps P (not (is_some a) && not b) (pure not_applied) _ (λ db h. h)
        (λ db h. v.stable.settling.emits _ db h)

  ingest_happy-Keeps :
      (id : ℕ) (p : Option HappyPhase) (msg : TelemetryMessage) (s : DeliveryStatus)
      → Keeps P (ingest_happy id p msg s)
  unfolding ingest_happy
  ingest_happy-Keeps id p msg s =
      >>=-Keeps P (advance_phase id p) _ (advance_phase-Keeps id p) (λ a.
        >>=-Keeps P (write_position id msg p a s) (finish_frame id msg a)
          (write_position-Keeps id msg p a s) (finish_frame-Keeps id msg a))

  pub ingest_phase-Keeps :
      (id : ℕ) (msg : TelemetryMessage) (s : DeliveryStatus) (o : Option DronePhase)
      → Keeps P (ingest_phase id msg s o)
  unfolding ingest_phase
  ingest_phase-Keeps id msg s none db h = ingest_happy-Keeps id none msg s db h
  ingest_phase-Keeps id msg s (some (happy p)) db h = ingest_happy-Keeps id (some p) msg s db h
  ingest_phase-Keeps id msg s (some (exception p)) db h = ingest_exception-Keeps id p msg db h

  module _ (distance : Distance) (frames : IgnoresFrames P) where
    record_frame-Keeps :
        (cid : ℕ) (ctx : RecorderContext) (msg : TelemetryMessage)
        → Keeps P (record_frame distance cid ctx msg)
    unfolding record_frame append_frame
    record_frame-Keeps cid ctx msg db h =
        freshen-Keeps distance cid ctx msg (append_frame ctx msg db).1 (frames db _ h)

    ingest_found-Keeps :
        (cid : ℕ) (msg : TelemetryMessage) (o : Option Delivery)
        → Keeps P (ingest_found distance cid msg o)
    unfolding ingest_found
    ingest_found-Keeps cid msg none db h = h
    ingest_found-Keeps cid msg (some d) db h =
        let guards =
          throw_if (not (is_live d.tracking_source)) telemetry_not_live
          >> throw_if (not (d.assigned_drone_id ==? msg.drone_id)) telemetry_drone_not_assigned in
        >>=-Keeps P (guards >> record_frame distance cid (context_of d msg.drone_id) msg)
          (λ _. ingest_phase d.id msg d.status msg.phase)
          (>>=-Keeps P guards (λ _. record_frame distance cid (context_of d msg.drone_id) msg)
            (>>=-Keeps P (throw_if (not (is_live d.tracking_source)) telemetry_not_live)
              (λ _.
                throw_if (not (d.assigned_drone_id ==? msg.drone_id)) telemetry_drone_not_assigned)
              (throw_if-Keeps P _ _) (λ _. throw_if-Keeps P _ _))
            (λ _. record_frame-Keeps cid (context_of d msg.drone_id) msg))
          (λ _. ingest_phase-Keeps d.id msg d.status msg.phase) db h

    pub ingest-Keeps : (cid : ℕ) (msg : TelemetryMessage) → Keeps P (ingest distance cid msg)
    unfolding ingest
    ingest-Keeps cid msg =
        >>=-Keeps P
          (throw_if
            (is_some msg.lat && not (is_some msg.lng) || not (is_some msg.lat) && is_some msg.lng)
            telemetry_latlng_pair_required)
          _ (throw_if-Keeps P _ _)
          (λ _ db. ingest_found-Keeps cid msg (find_delivery msg.delivery_id db) db)
