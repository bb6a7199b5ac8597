-- ===== src/Simulation/Kickoff.antt =====
-- `handleKickoff`, `handleDispatchRefusal` and `preflight` of
-- src/deliveries/simulation/simulation.processor.ts.
use drovery_backend.Base.{
  ℕ, ◌+◌, Bool, true, false, not, Option, none, some, List, [], ◌∷◌, ◌&&◌, ◌==◌, get_or, is_some,
  if◌then◌else◌,
}
use drovery_backend.Store.{
  Db, Effect, Delivery, DeliveryStatus, scheduled, status_eq, FailureReason, other,
  start_simulation, defer_kickoff, AppError, Result, ok, err, Action, ⊤, pure, gets, when, emit,
  ◌>>=◌, ◌>>◌,
}
use drovery_backend.Serviceability.{ServiceabilityResult}
use drovery_backend.Dispatch.{
  Distance, MissionRoute, PartialRoute, complete_route, DispatchRequest, DispatchDecision, dispatch,
  is_permanent_dispatch_refusal, return_to_fleet, release,
}
use drovery_backend.Deliveries.{find_delivery, update_delivery, status_in, fail_exceptional}
use drovery_backend.Simulation.Preflight.{
  PreflightVerdict, PreflightAction, classify_preflight, hold_exhausted, preflight_max_attempts,
}

pub record KickoffJob : Type 0 where
  pub delivery_id : ℕ
  pub preflight_attempt : Option ℕ

abbrev pub attempt_of : KickoffJob → ℕ
attempt_of job = get_or job.preflight_attempt 0

abbrev pub route_of : Delivery → PartialRoute
route_of d = record {
  from_lat = d.from_lat;
  from_lng = d.from_lng;
  to_lat = d.to_lat;
  to_lng = d.to_lng;
}

-- Look again later: another kickoff job, with the next attempt in its payload.
abbrev pub hold_on_ground : KickoffJob → Action ⊤
hold_on_ground job = emit (defer_kickoff job.delivery_id (attempt_of job + 1))

-- The attempt in the payload of the job that `deferKickoff` last queued for a delivery, if it was
-- called.
abbrev pub deferred : ℕ → List Effect → Option ℕ
deferred id [] = none
deferred id (defer_kickoff to attempt ∷ es) =
    let rest = deferred id es in if to == id then some attempt else rest
deferred id (_ ∷ es) = deferred id es

-- Give the launch up, with a refund, and only while it has not launched.
unfoldable pub give_up : KickoffJob → FailureReason → Action ⊤
give_up job reason = fail_exceptional job.delivery_id reason (scheduled ∷ []) none >> pure tt

abbrev pub is_launch : PreflightAction → Bool
is_launch PreflightAction.launch = true
is_launch _ = false

abbrev pub is_hold : PreflightAction → Bool
is_hold PreflightAction.hold = true
is_hold _ = false

unfoldable pub act_on : KickoffJob → PreflightVerdict → Action Bool
unfolding give_up
act_on job verdict =
    if is_launch verdict.action
    then pure true
    else if is_hold verdict.action && not (hold_exhausted (attempt_of job) preflight_max_attempts)
    then hold_on_ground job >> pure false
    else give_up job (get_or verdict.reason other) >> pure false

-- A delivery without coordinates is not checked.
unfoldable pub preflight :
    (MissionRoute → ServiceabilityResult) → KickoffJob → Option MissionRoute → Action Bool
unfolding act_on classify_preflight
preflight check job none = pure true
preflight check job (some route) = act_on job (classify_preflight (check route))

-- What waiting can fix is waited for, within the same budget.
unfoldable pub handle_dispatch_refusal : KickoffJob → AppError → Action ⊤
unfolding give_up
handle_dispatch_refusal job error =
    if not (is_permanent_dispatch_refusal error)
      && not (hold_exhausted (attempt_of job) preflight_max_attempts)
    then hold_on_ground job
    else give_up job other

-- SCHEDULED becomes PENDING, with the aircraft of a live flight.
abbrev pub launched : DispatchDecision → Delivery → Delivery
launched decision d = elim decision.drone_id [
  | none ↦ record d { status = DeliveryStatus.pending }
  | some drone ↦ record d {
    status = DeliveryStatus.pending;
    tracking_source = decision.tracking_source;
    assigned_drone_id = some drone;
  }
]

-- Enqueue, then the compare and set; an aircraft whose delivery was lost is handed back.
unfoldable pub commit_launch : KickoffJob → DispatchDecision → Action ⊤
commit_launch job decision = do
  when (not (is_some decision.drone_id)) (emit (start_simulation job.delivery_id))
  won ← update_delivery job.delivery_id (status_in (scheduled ∷ [])) (launched decision)
  when (won == 0 && is_some decision.drone_id) (release job.delivery_id return_to_fleet)

-- `try { dispatched = await dispatch(...) } catch (error) { ...; return; }`
abbrev pub after_dispatch : KickoffJob → Result DispatchDecision × Db → Result ⊤ × Db
after_dispatch job (ok decision, db) = commit_launch job decision db
after_dispatch job (err error, db) = handle_dispatch_refusal job error db

abbrev pub launch_request : KickoffJob → Delivery → DispatchRequest
launch_request job d = record {
  delivery_id = job.delivery_id;
  payload = d.package_weight;
  route = route_of d;
  is_scheduled = false;
}

module _ (distance : Distance) (live_dispatch : Bool)
    (check : MissionRoute → ServiceabilityResult) where
  unfoldable pub launch_now : KickoffJob → Delivery → Action ⊤
  unfolding commit_launch handle_dispatch_refusal
  launch_now job d db =
      after_dispatch job (dispatch distance live_dispatch (launch_request job d) db)

  unfoldable pub kickoff_scheduled : KickoffJob → Delivery → Action ⊤
  unfolding preflight launch_now
  kickoff_scheduled job d = do
    cleared ← preflight check job (complete_route (route_of d))
    let launched = launch_now job d
    if cleared then launched else pure tt

  -- A delivery that is not scheduled any more is left alone.
  unfoldable pub kickoff_found : KickoffJob → Option Delivery → Action ⊤
  unfolding kickoff_scheduled
  kickoff_found job none = pure tt
  kickoff_found job (some d) =
      if status_eq d.status scheduled then kickoff_scheduled job d else pure tt

  unfoldable pub handle_kickoff : KickoffJob → Action ⊤
  unfolding kickoff_found
  handle_kickoff job = do found ← gets (find_delivery job.delivery_id); kickoff_found job found
