-- ===== src/Deliveries/Cancel.antt =====
-- `cancel` and `adminForceCancel` of src/deliveries/deliveries.service.ts.
use drovery_backend.Base.{ℕ, Bool, true, not, Option, none, some, ◌==◌, ◌||◌, if◌then◌else◌}
use drovery_backend.Store.{
  Delivery, DeliveryStatus, canceled, includes, cancelable_statuses, failable_statuses,
  terminal_statuses, Action, ⊤, pure, gets, throw_if, transaction, ◌>>=◌, ◌>>◌, cancel_bad_status,
  cancel_race_bad_status,
}
use drovery_backend.Dispatch.{return_to_fleet, ground_for_inspection}
use drovery_backend.Deliveries.Transition.{
  status_in, set_status, update_delivery, find_delivery, current_status, owned_by, not_found_or,
}
use drovery_backend.Deliveries.Termination.{
  AircraftDisposition, release_as, cleanup_after_termination,
}

-- What follows the read.
unfoldable pub cancel_found : ℕ → Delivery → Action (Option Delivery)
cancel_found delivery_id delivery =
    throw_if (not (includes cancelable_statuses delivery.status)) cancel_bad_status
    >> update_delivery delivery_id (status_in cancelable_statuses) (set_status canceled)
    >>= λ won.
        throw_if (won == 0) cancel_race_bad_status
        >> cleanup_after_termination delivery_id true (release_as return_to_fleet)
        >> gets (find_delivery delivery_id)

unfoldable pub cancel : ℕ → ℕ → Action (Option Delivery)
unfolding cancel_found
cancel user_id delivery_id = do
  found ← gets (find_delivery delivery_id)
  delivery ← owned_by user_id found
  cancel_found delivery_id delivery

-- `auditWithinTx`: what an admin's call writes inside the transaction.
abbrev pub Audit : Type 0
Audit = Option (Option DeliveryStatus → Action ⊤)

abbrev pub read_status : Audit → ℕ → Action (Option DeliveryStatus)
read_status none delivery_id = pure none
read_status (some audit) delivery_id = gets (current_status delivery_id)

abbrev pub run_audit : Audit → Option DeliveryStatus → Action ⊤
run_audit none fired_from = pure tt
run_audit (some audit) fired_from = audit fired_from

-- `notIn: [...TERMINAL_STATUSES, ...FAILABLE_STATUSES]`
abbrev pub is_pre_launch : Delivery → Bool
is_pre_launch d = not (includes terminal_statuses d.status || includes failable_statuses d.status)

unfoldable pub force_cancel_airborne : ℕ → Audit → Action (Option AircraftDisposition)
force_cancel_airborne delivery_id audit = do
  fired_from ← read_status audit delivery_id
  won ← update_delivery delivery_id (status_in failable_statuses) (set_status canceled)
  let recorded = run_audit audit fired_from >> pure (some (release_as ground_for_inspection))
  if won == 0 then pure none else recorded

-- The transaction: the aircraft's disposition, or `none` when no row was in a live status.
unfoldable pub force_cancel_statements : ℕ → Audit → Action (Option AircraftDisposition)
unfolding force_cancel_airborne
force_cancel_statements delivery_id audit = do
  fired_from ← read_status audit delivery_id
  won ← update_delivery delivery_id is_pre_launch (set_status canceled)
  let recorded = run_audit audit fired_from >> pure (some (release_as return_to_fleet))
  let airborne = force_cancel_airborne delivery_id audit
  if won == 0 then airborne else recorded

unfoldable pub after_force_cancel : ℕ → Option AircraftDisposition → Action (Option Delivery)
after_force_cancel delivery_id none = do
  existing ← gets (find_delivery delivery_id)
  not_found_or cancel_race_bad_status existing
after_force_cancel delivery_id (some aircraft) =
    cleanup_after_termination delivery_id true aircraft >> gets (find_delivery delivery_id)

unfoldable pub admin_force_cancel : ℕ → Audit → Action (Option Delivery)
unfolding force_cancel_statements after_force_cancel
admin_force_cancel delivery_id audit = do
  outcome ← transaction (force_cancel_statements delivery_id audit)
  after_force_cancel delivery_id outcome
