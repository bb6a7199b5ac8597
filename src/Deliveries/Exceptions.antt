-- ===== src/Deliveries/Exceptions.antt =====
-- `failExceptional`, `beginReturnToBase`, `completeReturnToBase` and `adminFail` of
-- src/deliveries/deliveries.service.ts.
use drovery_backend.Base.{
  ℕ, Bool, true, false, not, Option, none, some, List, [], ◌∷◌, ◌==◌, ◌||◌, if◌then◌else◌, filter,
}
use drovery_backend.Store.{
  Delivery, DeliveryStatus, FailureReason, is_drone_fault_reason, delivery_failed, returning,
  returned_to_base, includes, failable_statuses, returnable_statuses, Action, pure, gets,
  transaction, ◌>>=◌, ◌>>◌, fail_bad_status,
}
use drovery_backend.Dispatch.{return_to_fleet, ground_for_inspection, release}
use drovery_backend.Deliveries.Transition.{
  status_in, set_status, set_failed, update_delivery, find_delivery, not_found_or,
}
use drovery_backend.Deliveries.Termination.{
  release_as, still_airborne, cleanup_after_termination, announce_exception, AircraftDisposition,
}
use drovery_backend.Deliveries.Cancel.{Audit, read_status, run_audit}

abbrev pub airborne_allowed : List DeliveryStatus → List DeliveryStatus
airborne_allowed allowed = filter (includes failable_statuses) allowed

abbrev pub grounded_allowed : List DeliveryStatus → List DeliveryStatus
grounded_allowed allowed = filter (λ s. not (includes failable_statuses s)) allowed

abbrev pub is_empty : List DeliveryStatus → Bool
is_empty [] = true
is_empty _ = false

-- One of the two statements: an empty set is not sent.
unfoldable pub fail_from : ℕ → FailureReason → List DeliveryStatus → Action ℕ
fail_from delivery_id reason allowed =
    if is_empty allowed
    then pure 0
    else update_delivery delivery_id (status_in allowed) (set_failed delivery_failed reason)

unfoldable pub fail_airborne :
    ℕ → FailureReason → List DeliveryStatus → Audit → Option DeliveryStatus → Action (Option Bool)
unfolding fail_from
fail_airborne delivery_id reason allowed audit fired_from = do
  won ← fail_from delivery_id reason (airborne_allowed allowed)
  let recorded = run_audit audit fired_from >> pure (some true)
  if won == 0 then pure none else recorded

-- The transaction: whether the aircraft was airborne, or `none` when no row matched.
unfoldable pub fail_statements :
    ℕ → FailureReason → List DeliveryStatus → Audit → Action (Option Bool)
unfolding fail_airborne
fail_statements delivery_id reason allowed audit = do
  fired_from ← read_status audit delivery_id
  won ← fail_from delivery_id reason (grounded_allowed allowed)
  let airborne = fail_airborne delivery_id reason allowed audit fired_from
  let recorded = run_audit audit fired_from >> pure (some false)
  if won == 0 then airborne else recorded

abbrev pub failed_aircraft : FailureReason → Bool → AircraftDisposition
failed_aircraft reason airborne =
    if is_drone_fault_reason reason || airborne
    then release_as ground_for_inspection
    else release_as return_to_fleet

unfoldable pub after_fail : ℕ → FailureReason → Option Bool → Action Bool
after_fail delivery_id reason none = pure false
after_fail delivery_id reason (some airborne) =
    cleanup_after_termination delivery_id (is_drone_fault_reason reason)
      (failed_aircraft reason airborne)
    >> announce_exception delivery_id delivery_failed (some reason)
    >> pure true

unfoldable pub fail_exceptional : ℕ → FailureReason → List DeliveryStatus → Audit → Action Bool
unfolding fail_statements after_fail
fail_exceptional delivery_id reason allowed audit = do
  outcome ← transaction (fail_statements delivery_id reason allowed audit)
  after_fail delivery_id reason outcome

unfoldable pub returning_cleanup : ℕ → FailureReason → Action Bool
returning_cleanup delivery_id reason =
    cleanup_after_termination delivery_id (is_drone_fault_reason reason) still_airborne
    >> announce_exception delivery_id returning (some reason)
    >> pure true

unfoldable pub begin_return_to_base : ℕ → FailureReason → Action Bool
unfolding returning_cleanup
begin_return_to_base delivery_id reason = do
  won ← update_delivery delivery_id (status_in returnable_statuses) (set_failed returning reason)
  let cleaned = returning_cleanup delivery_id reason
  if won == 0 then pure false else cleaned

unfoldable pub land : ℕ → Action Bool
land delivery_id =
    release delivery_id ground_for_inspection
    >> announce_exception delivery_id returned_to_base none
    >> pure true

unfoldable pub complete_return_to_base : ℕ → Action Bool
unfolding land
complete_return_to_base delivery_id = do
  won ← update_delivery delivery_id (status_in (returning ∷ [])) (set_status returned_to_base)
  let landed = land delivery_id
  if won == 0 then pure false else landed

unfoldable pub after_admin_fail : ℕ → Bool → Action (Option Delivery)
after_admin_fail delivery_id true = gets (find_delivery delivery_id)
after_admin_fail delivery_id false = do
  existing ← gets (find_delivery delivery_id)
  not_found_or fail_bad_status existing

unfoldable pub admin_fail : ℕ → FailureReason → Audit → Action (Option Delivery)
unfolding fail_exceptional after_admin_fail
admin_fail delivery_id reason audit = do
  applied ← fail_exceptional delivery_id reason failable_statuses audit
  after_admin_fail delivery_id applied
