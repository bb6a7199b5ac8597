-- ===== src/Simulation/Kept.antt =====
-- The jobs of src/deliveries/simulation/simulation.processor.ts keep what every driver of a flight
-- keeps.
use drovery_backend.Base.{
  ℕ, zero, suc, Bool, true, false, not, Option, none, some, [], ◌∷◌, ◌&&◌, ◌==◌, ◌≡◌, refl, is_some,
  get_or, if◌then◌else◌, arith,
}
use drovery_backend.Base.Int.{ℤ}
use drovery_backend.Store.{
  Db, Delivery, DeliveryStatus, delivered, FailureReason, other, scheduled, status_eq, includes,
  statuses_before, position_frozen_statuses, notify_stage, start_simulation, AppError, Result, ok,
  err, pure, when, emit, ◌>>◌,
}
use drovery_backend.Store.Invariants.{Keeps, >>=-Keeps, ite_Keeps, when-Keeps}
use drovery_backend.Serviceability.{ServiceabilityResult}
use drovery_backend.Dispatch.{
  Distance, MissionRoute, complete_route, DispatchDecision, dispatch, return_to_fleet, release,
}
use drovery_backend.Deliveries.{
  status_in, set_status, update_delivery, fail_exceptional, find_delivery,
}
use drovery_backend.Deliveries.Stable.{IsTransition, may_become}
use drovery_backend.Commands.Driven.{IsDriven}
use drovery_backend.Deliveries.Operations.{fail_exceptional-Keeps}
use drovery_backend.Tracking.{TrackingPosition, update_tracking, publish}
use drovery_backend.Simulation.Timeline.{SimStage, stages, get_elem?}
use drovery_backend.Simulation.Preflight.{
  PreflightVerdict, hold_exhausted, preflight_max_attempts, classify_preflight,
}
use drovery_backend.Simulation.Stages.{
  stage_effects, advance_stage, stage_if_found, stage_at, handle_stage, position_found,
  handle_position, stage_position, position_at,
}
use drovery_backend.Simulation.Kickoff.{
  KickoffJob, attempt_of, route_of, hold_on_ground, give_up, is_launch, is_hold, act_on, preflight,
  handle_dispatch_refusal, launched, commit_launch, after_dispatch, launch_request, launch_now,
  kickoff_scheduled, kickoff_found, handle_kickoff,
}

-- A stage only moves a delivery on, and none delivers it.
pub stage_moves :
    (s : DeliveryStatus)
    → status_eq s delivered ≡ false
    → IsTransition (status_in (statuses_before s)) (set_status s)
stage_moves s k = record {
  same_id = λ d. refl;
  moves_on = λ d e. earlier s d.status e;
  sound_handoff = λ d e h. (h.0, λ q. ground arith);
}
  where
    earlier : (s t : DeliveryStatus) → includes (statuses_before s) t ≡ true → may_become t s ≡ true
    earlier s t e = ground arith

launch_moves :
    (decision : DispatchDecision) → IsTransition (status_in (scheduled ∷ [])) (launched decision)
launch_moves decision = record {
  same_id = λ d. ground arith;
  moves_on = λ d e. ground arith;
  sound_handoff = λ d e h. (ground arith, λ q. ground arith);
}

abbrev NeverDelivers : Option SimStage → Type 0
NeverDelivers none = Unit
NeverDelivers (some s) = status_eq s.status delivered ≡ false

stages-NeverDeliver : (i : ℕ) → NeverDelivers (get_elem? stages i)
stages-NeverDeliver zero = refl
stages-NeverDeliver (suc zero) = refl
stages-NeverDeliver (suc (suc zero)) = refl
stages-NeverDeliver (suc (suc (suc zero))) = refl
stages-NeverDeliver (suc (suc (suc (suc zero)))) = refl
stages-NeverDeliver (suc (suc (suc (suc (suc i))))) = tt

module _ (P : Db → Type 0) (v : IsDriven P) where
  pub update_tracking-Keeps : (id : ℕ) (p : TrackingPosition) → Keeps P (update_tracking id p)
  unfolding update_tracking
  update_tracking-Keeps id p db h = v.observes db _ db.auto_returns h

  stage_effects-Keeps :
      (id : ℕ) (s : DeliveryStatus) (c : MissionRoute) → Keeps P (stage_effects id s c)
  unfolding stage_effects
  stage_effects-Keeps id s c db h = v.stable.settling.emits _ _ (
      v.stable.settling.emits (notify_stage id s) _
        (update_tracking-Keeps id (stage_position s c db.now) db h))

  advance_stage-Keeps :
      (id : ℕ) (s : DeliveryStatus) (c : MissionRoute)
      → status_eq s delivered ≡ false
      → Keeps P (advance_stage id s c)
  unfolding advance_stage
  advance_stage-Keeps id s c k =
      >>=-Keeps P (update_delivery id (status_in (statuses_before s)) (set_status s))
        (λ won. if won == 0 then pure tt else stage_effects id s c)
        (v.stable.updates id _ _ (stage_moves s k))
        (λ won.
          ite_Keeps P (won == 0) (pure tt) (stage_effects id s c) (λ db h. h)
            (stage_effects-Keeps id s c))

  stage_at-Keeps :
      (id : ℕ) (c : MissionRoute) (o : Option SimStage)
      → NeverDelivers o
      → Keeps P (stage_at id c o)
  unfolding stage_at
  stage_at-Keeps id c none k db h = h
  stage_at-Keeps id c (some s) k db h = go (find_delivery id db) db h
    where
      go : (o : Option Delivery) → Keeps P (stage_if_found o (advance_stage id s.status c))
      go none db h = h
      go (some d) db h = advance_stage-Keeps id s.status c k db h

  pub handle_stage-Keeps : (id : ℕ) (c : MissionRoute) (i : ℕ) → Keeps P (handle_stage id c i)
  unfolding handle_stage
  handle_stage-Keeps id c i = stage_at-Keeps id c (get_elem? stages i) (stages-NeverDeliver i)

  position_found-Keeps :
      (id : ℕ) (lat lng : ℤ) (o : Option Delivery) → Keeps P (position_found id lat lng o)
  unfolding position_found
  position_found-Keeps id lat lng none db h = h
  position_found-Keeps id lat lng (some d) db h =
      ite_Keeps P (includes position_frozen_statuses d.status) (pure tt)
        (update_tracking id (position_at lat lng) >> publish id none (some lat) (some lng))
        (λ db h. h)
        (λ db h. v.stable.settling.emits _ _ (update_tracking-Keeps id (position_at lat lng) db h))
        db h

  pub handle_position-Keeps : (id : ℕ) (lat lng : ℤ) → Keeps P (handle_position id lat lng)
  unfolding handle_position
  handle_position-Keeps id lat lng db = position_found-Keeps id lat lng (find_delivery id db) db

  give_up-Keeps : (job : KickoffJob) (r : FailureReason) → Keeps P (give_up job r)
  unfolding give_up
  give_up-Keeps job r =
      >>=-Keeps P (fail_exceptional job.delivery_id r (scheduled ∷ []) none) (λ _. pure tt)
        (fail_exceptional-Keeps P v.stable none (λ _ db h. h) job.delivery_id r (scheduled ∷ [])
          (refl, tt))
        (λ _ db h. h)

  hold_on_ground-Keeps : (job : KickoffJob) → Keeps P (hold_on_ground job)
  hold_on_ground-Keeps job = v.stable.settling.emits _

  act_on-Keeps : (job : KickoffJob) (verdict : PreflightVerdict) → Keeps P (act_on job verdict)
  unfolding act_on
  act_on-Keeps job verdict =
      ite_Keeps P (is_launch verdict.action) (pure true) _ (λ db h. h)
        (ite_Keeps P
          (is_hold verdict.action && not (hold_exhausted (attempt_of job) preflight_max_attempts))
          (hold_on_ground job >> pure false)
          (give_up job (get_or verdict.reason other) >> pure false) (hold_on_ground-Keeps job)
          (>>=-Keeps P (give_up job (get_or verdict.reason other)) (λ _. pure false)
            (give_up-Keeps job _) (λ _ db h. h)))

  preflight-Keeps :
      (check : MissionRoute → ServiceabilityResult) (job : KickoffJob) (o : Option MissionRoute)
      → Keeps P (preflight check job o)
  unfolding preflight
  preflight-Keeps check job none db h = h
  preflight-Keeps check job (some r) db h = act_on-Keeps job (classify_preflight (check r)) db h

  refusal-Keeps : (job : KickoffJob) (e : AppError) → Keeps P (handle_dispatch_refusal job e)
  unfolding handle_dispatch_refusal
  refusal-Keeps job e =
      ite_Keeps P _ (hold_on_ground job) (give_up job other) (hold_on_ground-Keeps job)
        (give_up-Keeps job other)

  commit_launch-Keeps :
      (job : KickoffJob) (decision : DispatchDecision) → Keeps P (commit_launch job decision)
  unfolding commit_launch
  commit_launch-Keeps job decision =
      >>=-Keeps P (when (not (is_some decision.drone_id)) (emit (start_simulation job.delivery_id)))
        _ (when-Keeps P (not (is_some decision.drone_id)) _ (v.stable.settling.emits _))
        (λ _.
          >>=-Keeps P
            (update_delivery job.delivery_id (status_in (scheduled ∷ [])) (launched decision))
            (λ won.
              when (won == 0 && is_some decision.drone_id)
                (release job.delivery_id return_to_fleet))
            (v.stable.updates job.delivery_id _ _ (launch_moves decision))
            (λ won.
              when-Keeps P (won == 0 && is_some decision.drone_id) _
                (v.stable.settling.releases job.delivery_id return_to_fleet)))

  after_dispatch-Keeps :
      (job : KickoffJob) (o : Result DispatchDecision × Db) → P o.1 → P (after_dispatch job o).1
  after_dispatch-Keeps job (ok d, db) h = commit_launch-Keeps job d db h
  after_dispatch-Keeps job (err e, db) h = refusal-Keeps job e db h

  module _ (distance : Distance) (live : Bool) (check : MissionRoute → ServiceabilityResult) where
    launch_now-Keeps :
        (job : KickoffJob) (d : Delivery) → Keeps P (launch_now distance live check job d)
    unfolding launch_now
    launch_now-Keeps job d db h =
        after_dispatch-Keeps job (dispatch distance live (launch_request job d) db)
          (v.dispatches distance live (launch_request job d) db h)

    kickoff_found-Keeps :
        (job : KickoffJob) (o : Option Delivery) → Keeps P (kickoff_found distance live check job o)
    unfolding kickoff_found kickoff_scheduled
    kickoff_found-Keeps job none db h = h
    kickoff_found-Keeps job (some d) db h =
        ite_Keeps P (status_eq d.status scheduled) (kickoff_scheduled distance live check job d)
          (pure tt)
          (>>=-Keeps P (preflight check job (complete_route (route_of d)))
            (λ cleared. if cleared then launch_now distance live check job d else pure tt)
            (preflight-Keeps check job (complete_route (route_of d)))
            (λ cleared.
              ite_Keeps P cleared (launch_now distance live check job d) (pure tt)
                (launch_now-Keeps job d) (λ db h. h)))
          (λ db h. h) db h

    pub handle_kickoff-Keeps : (job : KickoffJob) → Keeps P (handle_kickoff distance live check job)
    unfolding handle_kickoff
    handle_kickoff-Keeps job db = kickoff_found-Keeps job (find_delivery job.delivery_id db) db
