-- ===== src/Deliveries/Aircraft.antt =====
-- What becomes of the aircraft when src/deliveries/deliveries.service.ts ends a delivery.
use drovery_backend.Base.{
  ◌||◌, if◌then◌else◌, ℕ, Bool, true, false, not, none, some, List, [], ◌∷◌, ◌≡◌, refl, arith,
  filter, Bool-cases, inl, inr, Option-cases,
}
use drovery_backend.Base.Table.{at, count, count-at, IsKeyed, update_many}
use drovery_backend.Store.{
  Db, Drone, Delivery, delivery_key, DeliveryStatus, FailureReason, is_drone_fault_reason, includes,
  status_eq, failable_statuses, Result, ok, err, ⊤, pure, ◌>>◌, delivery_failed, continue_with,
  FailureReason,
}
use drovery_backend.Store.Invariants.{Keeps, when-Keeps}
use drovery_backend.Wallet.{refund_for_delivery}
use drovery_backend.Wallet.Frame.{refund_for_delivery-frame, refund_charge_to_wallet-frame}
use drovery_backend.Promo.{release_for_delivery}
use drovery_backend.Promo.Frame.{release_for_delivery-frame}
use drovery_backend.Dispatch.{ground_for_inspection, return_to_fleet, holds, released, release}
use drovery_backend.Deliveries.Transition.{status_in, set_failed, update_delivery, find_delivery}
use drovery_backend.Deliveries.Termination.{
  AircraftDisposition, release_as, still_airborne, hand_back, refund_legs,
  cleanup_after_termination, announce_to, announce_exception,
}
use drovery_backend.Deliveries.Settled.{update_unmatched}
use drovery_backend.Deliveries.Exceptions.{
  fail_exceptional, fail_statements, fail_airborne, fail_from, after_fail, failed_aircraft,
  airborne_allowed, grounded_allowed, is_empty,
}

-- The fleet after an aircraft is handed back.
abbrev pub fleet_after : ℕ → AircraftDisposition → List Drone → List Drone
fleet_after id (release_as o) ds = update_many (holds id) (released o) ds
fleet_after id still_airborne ds = ds

abbrev HasFleet : List Drone → Db → Type 0
HasFleet ds db = db.drones ≡ ds

handed :
    (id : ℕ) (a : AircraftDisposition) (db : Db)
    → (hand_back id a db).1.drones ≡ fleet_after id a db.drones
unfolding hand_back release
handed id (release_as o) db = refl
handed id still_airborne db = refl

module _ (ds : List Drone) where
  legs-HasFleet : (id : ℕ) → Keeps (HasFleet ds) (refund_legs id)
  unfolding refund_legs
  legs-HasFleet id db h =
      refund_charge_to_wallet-frame (λ r. r.drones ≡ ds) id
        (refund_for_delivery id (release_for_delivery id db).1).1
        (refund_for_delivery-frame (λ r. r.drones ≡ ds) id (release_for_delivery id db).1
          (release_for_delivery-frame (λ r. r.drones ≡ ds) id db h))

cleanup-fleet :
    (id : ℕ) (refund : Bool) (a : AircraftDisposition) (db : Db)
    → (cleanup_after_termination id refund a db).1.drones ≡ fleet_after id a db.drones
unfolding cleanup_after_termination hand_back release
cleanup-fleet id refund (release_as o) db =
    when-Keeps (HasFleet _) refund (refund_legs id) (legs-HasFleet _ id) _ refl
cleanup-fleet id refund still_airborne db =
    when-Keeps (HasFleet _) refund (refund_legs id) (legs-HasFleet _ id) _ refl

cleanup_ok :
    (id : ℕ) (refund : Bool) (a : AircraftDisposition) (db : Db)
    → (cleanup_after_termination id refund a db).0 ≡ ok tt
unfolding cleanup_after_termination hand_back release refund_legs
cleanup_ok id true (release_as o) db = refl
cleanup_ok id false (release_as o) db = refl
cleanup_ok id true still_airborne db = refl
cleanup_ok id false still_airborne db = refl

-- The cleanup and the announcement of an exception return, and leave the fleet as the disposition
-- says.
closing :
    (id : ℕ) (refund : Bool) (a : AircraftDisposition) (s : DeliveryStatus) (r : FailureReason)
    (db : Db)
    → let o =
        (cleanup_after_termination id refund a >> announce_exception id s (some r) >> pure true)
          db in
      (o.0 ≡ ok true) × (o.1.drones ≡ fleet_after id a db.drones)
unfolding announce_exception announce_to
closing id refund a s r db =
    ended (cleanup_after_termination id refund a db) (cleanup_ok id refund a db)
      (cleanup-fleet id refund a db)
  where
    ended :
        (o : Result ⊤ × Db)
        → o.0 ≡ ok tt
        → o.1.drones ≡ fleet_after id a db.drones
        → let p =
            continue_with
              (λ _. pure true)
              (continue_with (λ _. announce_exception id s (some r)) o) in
          (p.0 ≡ ok true) × (p.1.drones ≡ fleet_after id a db.drones)
    ended (err x, db') e h = absurd (clash e)
      where
        clash : err x ≡ ok tt → ⊥
        clash e = cc
    ended (ok t, db') e h = elim (Option-cases (find_delivery id db')) [
      | inl n ↦ rw n (refl, h)
      | inr (d, n) ↦ rw n (refl, h)
    ]

status_same : (x s : DeliveryStatus) → status_eq x s ≡ true → x ≡ s
status_same x s h = ground arith

pub filter_keeps :
    (p : DeliveryStatus → Bool) (xs : List DeliveryStatus) (s : DeliveryStatus)
    → includes xs s ≡ true
    → p s ≡ true
    → includes (filter p xs) s ≡ true
filter_keeps p [] s h k = cc
filter_keeps p (x ∷ xs) s h k = elim (Bool-cases (status_eq x s)) [
  | inl e ↦ let px : p x ≡ true = rw (status_same x s e) k in rw (px, e) refl
  | inr e ↦
      let later : includes (filter p xs) s ≡ true = filter_keeps p xs s (rw e at h) k in
      elim (Bool-cases (p x)) [ inl px ↦ rw (px, e) later | inr px ↦ rw px later ]
]

non_empty :
    (xs : List DeliveryStatus) (s : DeliveryStatus) → includes xs s ≡ true → is_empty xs ≡ false
non_empty [] s h = cc
non_empty (x ∷ xs) s h = refl

pub filter_drops :
    (p : DeliveryStatus → Bool) (xs : List DeliveryStatus) (s : DeliveryStatus)
    → p s ≡ false
    → includes (filter p xs) s ≡ false
filter_drops p [] s h = refl
filter_drops p (x ∷ xs) s h = elim (Bool-cases (p x)) [
  | inr px ↦ rw px (filter_drops p xs s h)
  | inl px ↦ elim (Bool-cases (status_eq x s)) [
    | inr e ↦ rw (px, e) (filter_drops p xs s h)
    | inl e ↦ let same : x ≡ s = status_same x s e in absurd (clash x px same)
  ]
]
  where
    clash : (y : DeliveryStatus) → p y ≡ true → y ≡ s → ⊥
    clash y py e = cc

module _ (id : ℕ) (db : Db) (d : Delivery) (keyed : IsKeyed delivery_key db.deliveries)
    (found : find_delivery id db ≡ some d) where
  pub won_one :
      (xs : List DeliveryStatus)
      → includes xs d.status ≡ true
      → count (at delivery_key id (status_in xs)) db.deliveries ≡ 1
  won_one xs h = ground (arith, count-at delivery_key id (status_in xs) db.deliveries keyed)

  unfoldable pub after_failure : FailureReason → List DeliveryStatus → Db
  after_failure r ys = record db {
    deliveries =
        update_many (at delivery_key id (status_in ys)) (set_failed delivery_failed r)
          db.deliveries;
  }

  pub fail_from_won :
      (r : FailureReason) (ys : List DeliveryStatus)
      → includes ys d.status ≡ true
      → fail_from id r ys db ≡ (ok 1, after_failure r ys)
  unfolding fail_from update_delivery after_failure
  fail_from_won r ys h = rw (non_empty ys d.status h, won_one ys h) refl

  pub fail_from_lost :
      (r : FailureReason) (ys : List DeliveryStatus)
      → includes ys d.status ≡ false
      → fail_from id r ys db ≡ (ok 0, db)
  unfolding fail_from
  fail_from_lost r ys h = elim (Bool-cases (is_empty ys)) [
    | inl e ↦ rw e refl
    | inr e ↦
        rw e (update_unmatched id db d keyed found (status_in ys) (set_failed delivery_failed r) h)
  ]

  -- A failure from an allowed status succeeds, and takes the aircraft out of service exactly when
  -- the reason is the drone's or the service's fault or the status was airborne; else it goes back
  -- to the fleet.
  pub fail-fleet :
      (r : FailureReason) (xs : List DeliveryStatus)
      → includes xs d.status ≡ true
      → let o = fail_exceptional id r xs none db in
        (o.0 ≡ ok true)
        × (o.1.drones
            ≡ fleet_after id
                (if is_drone_fault_reason r || includes failable_statuses d.status
                  then release_as ground_for_inspection
                  else release_as return_to_fleet)
                db.drones)
  unfolding fail_exceptional fail_statements fail_airborne after_fail after_failure
  fail-fleet r xs h = elim (Bool-cases (includes failable_statuses d.status)) [
    | inr g ↦
        let inc =
          filter_keeps (λ s. not (includes failable_statuses s)) xs d.status h (rw g refl) in
        rw (fail_from_won r (grounded_allowed xs) inc, g)
          (closing id (is_drone_fault_reason r) (failed_aircraft r false) delivery_failed r
            (after_failure r (grounded_allowed xs)))
    | inl g ↦
        let inc = filter_keeps (includes failable_statuses) xs d.status h g in
        let out = filter_drops (λ s. not (includes failable_statuses s)) xs d.status (rw g refl) in
        rw
          (fail_from_lost r (grounded_allowed xs) out, fail_from_won r (airborne_allowed xs) inc, g)
          (closing id (is_drone_fault_reason r) (failed_aircraft r true) delivery_failed r
            (after_failure r (airborne_allowed xs)))
  ]
