-- ===== src/Deliveries/Termination.antt =====
-- `cleanupAfterTermination`, `announceException` and the compensations of
-- src/deliveries/deliveries.service.ts.
use drovery_backend.Base.{ℕ, Bool, Option, none, some}
use drovery_backend.Store.{
  DeliveryStatus, FailureReason, Delivery, announce, stop_simulation, Action, ⊤, pure, gets, when,
  best_effort, emit, ◌>>=◌, ◌>>◌,
}
use drovery_backend.Wallet.{refund_for_delivery, refund_charge_to_wallet}
use drovery_backend.Promo.{release_for_delivery}
use drovery_backend.Dispatch.{ReleaseOutcome, return_to_fleet, release}
use drovery_backend.Deliveries.Transition.{find_delivery}

-- `ReleaseOutcome | 'STILL_AIRBORNE'`
pub data AircraftDisposition : Type 0 where
  release_as : ReleaseOutcome → AircraftDisposition
  still_airborne : AircraftDisposition

unfoldable pub hand_back : ℕ → AircraftDisposition → Action ⊤
hand_back delivery_id (release_as outcome) = release delivery_id outcome
hand_back delivery_id still_airborne = pure tt

-- Both parts of the charge, and the promo slot.
unfoldable pub refund_legs : ℕ → Action ⊤
refund_legs delivery_id =
    best_effort (release_for_delivery delivery_id)
    >> best_effort (refund_for_delivery delivery_id)
    >> best_effort (refund_charge_to_wallet delivery_id)

-- The cleanup of every terminal path.
unfoldable pub cleanup_after_termination : ℕ → Bool → AircraftDisposition → Action ⊤
unfolding hand_back refund_legs
cleanup_after_termination delivery_id refund_credits aircraft =
    hand_back delivery_id aircraft
    >> best_effort (emit (stop_simulation delivery_id))
    >> when refund_credits (refund_legs delivery_id)

-- Notify the owner of the delivery that was read, and publish the status.
unfoldable pub announce_to : ℕ → DeliveryStatus → Option FailureReason → Option Delivery → Action ⊤
announce_to delivery_id status reason none = pure tt
announce_to delivery_id status reason (some d) = emit (announce delivery_id status reason)

unfoldable pub announce_exception : ℕ → DeliveryStatus → Option FailureReason → Action ⊤
unfolding announce_to
announce_exception delivery_id status reason = do
  delivery ← gets (find_delivery delivery_id)
  announce_to delivery_id status reason delivery

-- Reverse the reservations that were made before the delivery was written.
unfoldable pub compensate_reservations : ℕ → Action ⊤
compensate_reservations delivery_id =
    best_effort (release_for_delivery delivery_id) >> best_effort (refund_for_delivery delivery_id)

unfoldable pub release_claimed_aircraft : Option ℕ → ℕ → Action ⊤
release_claimed_aircraft none delivery_id = pure tt
release_claimed_aircraft (some drone_id) delivery_id = release delivery_id return_to_fleet
