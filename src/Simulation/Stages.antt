-- ===== src/Simulation/Stages.antt =====
-- `handleStage` and `handlePosition` of src/deliveries/simulation/simulation.processor.ts.
use drovery_backend.Base.{ℕ, ◌+◌, Option, none, some, ◌==◌, if◌then◌else◌}
use drovery_backend.Base.Int.{ℤ}
use drovery_backend.Store.{
  Delivery, DeliveryStatus, awaiting_handoff, status_eq, statuses_before, includes,
  position_frozen_statuses, stage_label, notify_stage, Action, ⊤, pure, gets, best_effort, emit,
  ◌>>=◌, ◌>>◌,
}
use drovery_backend.Dispatch.{MissionRoute}
use drovery_backend.Deliveries.{find_delivery, update_delivery, status_in, set_status}
use drovery_backend.Tracking.{TrackingPosition, update_tracking, publish}
use drovery_backend.Simulation.Timeline.{
  Point, SimStage, stages, get_elem?, drone_position_for_stage,
}

abbrev pub lat_of : Option Point → Option ℤ
lat_of none = none
lat_of (some p) = some p.lat

abbrev pub lng_of : Option Point → Option ℤ
lng_of none = none
lng_of (some p) = some p.lng

abbrev pub stage_eta : DeliveryStatus → ℕ → Option ℕ
stage_eta status now = if status_eq status awaiting_handoff then none else some (now + 60000)

abbrev pub stage_position : DeliveryStatus → MissionRoute → ℕ → TrackingPosition
stage_position status coords now = record {
  drone_lat = lat_of (drone_position_for_stage status coords);
  drone_lng = lng_of (drone_position_for_stage status coords);
  drone_status = some (stage_label status);
  eta = stage_eta status now;
}

-- What follows the transition; the writes are best-effort.
unfoldable pub stage_effects : ℕ → DeliveryStatus → MissionRoute → Action ⊤
unfolding update_tracking drone_position_for_stage
stage_effects delivery_id status coords = do
  now ← gets (λ db. db.now)
  best_effort (update_tracking delivery_id (stage_position status coords now))
  best_effort (emit (notify_stage delivery_id status))
  publish delivery_id (some status) (lat_of (drone_position_for_stage status coords))
      (lng_of (drone_position_for_stage status coords))

-- The compare and set, only from a status strictly before the stage's.
unfoldable pub advance_stage : ℕ → DeliveryStatus → MissionRoute → Action ⊤
unfolding stage_effects
advance_stage delivery_id status coords = do
  won ← update_delivery delivery_id (status_in (statuses_before status)) (set_status status)
  let noted = stage_effects delivery_id status coords
  if won == 0 then pure tt else noted

abbrev pub stage_if_found : Option Delivery → Action ⊤ → Action ⊤
stage_if_found none m = pure tt
stage_if_found (some d) m = m

unfoldable pub stage_at : ℕ → MissionRoute → Option SimStage → Action ⊤
unfolding advance_stage
stage_at delivery_id coords none = pure tt
stage_at delivery_id coords (some stage) = do
  found ← gets (find_delivery delivery_id)
  stage_if_found found (advance_stage delivery_id stage.status coords)

unfoldable pub handle_stage : ℕ → MissionRoute → ℕ → Action ⊤
unfolding stage_at
handle_stage delivery_id coords stage_index =
    stage_at delivery_id coords (get_elem? stages stage_index)

abbrev pub position_at : ℤ → ℤ → TrackingPosition
position_at lat lng = record {
  drone_lat = some lat;
  drone_lng = some lng;
  drone_status = none;
  eta = none;
}

unfoldable pub position_found : ℕ → ℤ → ℤ → Option Delivery → Action ⊤
unfolding update_tracking
position_found delivery_id lat lng none = pure tt
position_found delivery_id lat lng (some d) =
    if includes position_frozen_statuses d.status
    then pure tt
    else update_tracking delivery_id (position_at lat lng)
      >> publish delivery_id none (some lat) (some lng)

unfoldable pub handle_position : ℕ → ℤ → ℤ → Action ⊤
unfolding position_found
handle_position delivery_id lat lng = do
  found ← gets (find_delivery delivery_id)
  position_found delivery_id lat lng found
