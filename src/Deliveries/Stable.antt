-- ===== src/Deliveries/Stable.antt =====
-- Invariants that the statements of a delivery's life keep: the interface that a component fills
-- for its own invariant, and what src/deliveries/deliveries.service.ts then keeps.
use drovery_backend.Base.{◌≤◌, ℕ, Bool, true, Option, none, some, ◌≡◌, ◌||◌, ◌==◌, ltb, is_some}
use drovery_backend.Store.{
  Db, Delivery, DeliveryStatus, Effect, AppError, FailureReason, pure, throw, when, best_effort,
  emit, status_eq, ◌>>◌, scheduled, pending, confirmed, drone_assigned, pickup_in_progress,
  in_transit, awaiting_handoff, returning, delivered, stop_simulation, announce,
}
use drovery_backend.Store.Invariants.{Keeps, >>=-Keeps, when-Keeps, ite_Keeps}
use drovery_backend.Wallet.{refund_for_delivery, refund_charge_to_wallet}
use drovery_backend.Promo.{release_for_delivery}
use drovery_backend.Dispatch.{ReleaseOutcome, release, return_to_fleet}
use drovery_backend.Deliveries.Transition.{not_found_or, update_delivery, owned_by, find_delivery}
use drovery_backend.Deliveries.Termination.{
  AircraftDisposition, release_as, still_airborne, hand_back, refund_legs,
  cleanup_after_termination, announce_to, announce_exception, compensate_reservations,
  release_claimed_aircraft,
}

-- How far a status is in the life of a delivery; the four terminal statuses are the furthest.
abbrev pub status_rank : DeliveryStatus → ℕ
status_rank scheduled = 0
status_rank pending = 1
status_rank confirmed = 2
status_rank drone_assigned = 3
status_rank pickup_in_progress = 4
status_rank in_transit = 5
status_rank awaiting_handoff = 6
status_rank returning = 7
status_rank _ = 8

-- A status stays, or moves on.
abbrev pub may_become : DeliveryStatus → DeliveryStatus → Bool
may_become a b = status_eq a b || ltb (status_rank a) (status_rank b)

-- At most five wrong codes are counted, and a delivered delivery has a confirmed handoff.
abbrev pub IsSoundHandoff : Delivery → Type 0
IsSoundHandoff d =
    (d.handoff_attempts ≤ 5)
    × (status_eq d.status delivered ≡ true → is_some d.handoff_confirmed_at ≡ true)

-- A guarded change of a delivery that keeps its key, moves its status on, and keeps its handoff
-- sound.
pub record IsTransition (guard : Delivery → Bool) (change : Delivery → Delivery) : Type 0 where
  pub same_id : (d : Delivery) → (change d).id ≡ d.id
  pub moves_on : (d : Delivery) → guard d ≡ true → may_become d.status (change d).status ≡ true
  pub sound_handoff : (d : Delivery) → guard d ≡ true → IsSoundHandoff d → IsSoundHandoff (change d)

-- An invariant that what follows a transition keeps: the aircraft, the money and the messages.
pub record IsSettling (P : Db → Type 0) : Type 0 where
  pub emits : (e : Effect) → Keeps P (emit e)
  pub releases : (id : ℕ) (o : ReleaseOutcome) → Keeps P (release id o)
  pub promos : (id : ℕ) → Keeps P (release_for_delivery id)
  pub spends : (id : ℕ) → Keeps P (refund_for_delivery id)
  pub charges : (id : ℕ) → Keeps P (refund_charge_to_wallet id)

-- An invariant that the statements which a delivery's transitions are made of keep.
pub record IsStable (P : Db → Type 0) : Type 0 where
  pub settling : IsSettling P
  pub updates :
      (id : ℕ) (guard : Delivery → Bool) (change : Delivery → Delivery)
      → IsTransition guard change
      → Keeps P (update_delivery id guard change)

module _ (P : Db → Type 0) where
  pub owned_by-Keeps : (uid : ℕ) (o : Option Delivery) → Keeps P (owned_by uid o)
  owned_by-Keeps uid none db h = h
  owned_by-Keeps uid (some d) db h =
      ite_Keeps P (d.user_id == uid) (pure d) (throw _) (λ db h. h) (λ db h. h) db h

  pub not_found_or-Keeps : (e : AppError) (o : Option Delivery) → Keeps P (not_found_or e o)
  not_found_or-Keeps e none db h = h
  not_found_or-Keeps e (some d) db h = h

module _ (P : Db → Type 0) (s : IsSettling P) where
  hand_back-Keeps : (id : ℕ) (a : AircraftDisposition) → Keeps P (hand_back id a)
  unfolding hand_back
  hand_back-Keeps id (release_as o) db h = s.releases id o db h
  hand_back-Keeps id still_airborne db h = h

  refund_legs-Keeps : (id : ℕ) → Keeps P (refund_legs id)
  unfolding refund_legs
  refund_legs-Keeps id db h =
      s.charges id (refund_for_delivery id (release_for_delivery id db).1).1
        (s.spends id (release_for_delivery id db).1 (s.promos id db h))

  pub compensate_reservations-Keeps : (id : ℕ) → Keeps P (compensate_reservations id)
  unfolding compensate_reservations
  compensate_reservations-Keeps id db h =
      s.spends id (release_for_delivery id db).1 (s.promos id db h)

  pub release_claimed_aircraft-Keeps :
      (o : Option ℕ) (id : ℕ) → Keeps P (release_claimed_aircraft o id)
  unfolding release_claimed_aircraft
  release_claimed_aircraft-Keeps none id db h = h
  release_claimed_aircraft-Keeps (some d) id db h = s.releases id return_to_fleet db h

  pub cleanup-Keeps :
      (id : ℕ) (refund : Bool) (a : AircraftDisposition)
      → Keeps P (cleanup_after_termination id refund a)
  unfolding cleanup_after_termination
  cleanup-Keeps id refund a =
      >>=-Keeps P (hand_back id a >> best_effort (emit (stop_simulation id)))
        (λ _. when refund (refund_legs id))
        (>>=-Keeps P (hand_back id a) (λ _. best_effort (emit (stop_simulation id)))
          (hand_back-Keeps id a) (λ _. s.emits (stop_simulation id)))
        (λ _. when-Keeps P refund (refund_legs id) (refund_legs-Keeps id))

  announce_to-Keeps :
      (id : ℕ) (st : DeliveryStatus) (r : Option FailureReason) (o : Option Delivery)
      → Keeps P (announce_to id st r o)
  unfolding announce_to
  announce_to-Keeps id st r none db h = h
  announce_to-Keeps id st r (some d) db h = s.emits (announce id st r) db h

  pub announce-Keeps :
      (id : ℕ) (st : DeliveryStatus) (r : Option FailureReason)
      → Keeps P (announce_exception id st r)
  unfolding announce_exception
  announce-Keeps id st r db h = announce_to-Keeps id st r (find_delivery id db) db h
