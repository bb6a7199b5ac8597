-- ===== src/Deliveries/Failed.antt =====
-- What `failExceptional` of src/deliveries/deliveries.service.ts does to the deliveries: one of an
-- allowed status fails, and every other stays as it is.
use drovery_backend.Base.{
  ℕ, Bool, true, false, not, none, some, List, [], ◌∷◌, ◌≡◌, ◌≢◌, refl, arith, ◌==◌, filter,
  Bool-cases, inl, inr, if◌then◌else◌, ap, ◌∙◌,
}
use drovery_backend.Base.Table.{
  at, find, map_row, update_many, count, find-update_at, IsKeyed, IsKeyed-update_many,
}
use drovery_backend.Store.{
  Db, Delivery, delivery_key, DeliveryStatus, FailureReason, includes, failable_statuses,
  delivery_failed, ok, pure, ◌>>◌,
}
use drovery_backend.Store.Invariants.{>>=-Keeps}
use drovery_backend.Wallet.Frame.{refund_for_delivery-frame, refund_charge_to_wallet-frame}
use drovery_backend.Promo.Frame.{release_for_delivery-frame}
use drovery_backend.Dispatch.{release}
use drovery_backend.Deliveries.Transition.{status_in, set_failed, update_delivery, find_delivery}
use drovery_backend.Deliveries.Stable.{IsSettling, cleanup-Keeps, announce-Keeps}
use drovery_backend.Deliveries.Termination.{cleanup_after_termination, announce_exception}
use drovery_backend.Deliveries.Exceptions.{
  fail_exceptional, fail_statements, fail_airborne, fail_from, after_fail, failed_aircraft,
  airborne_allowed, grounded_allowed, is_empty,
}
use drovery_backend.Store.{is_drone_fault_reason}
use drovery_backend.Deliveries.Aircraft.{
  filter_keeps, filter_drops, fail_from_won, fail_from_lost, after_failure,
}

-- What follows a transition leaves the deliveries.
pub Deliveries-IsSettling : (ds : List Delivery) → IsSettling (λ db. db.deliveries ≡ ds)
unfolding release
Deliveries-IsSettling ds = record {
  emits = λ e db h. h;
  releases = λ id o db h. h;
  promos = release_for_delivery-frame (λ r. r.deliveries ≡ ds);
  spends = refund_for_delivery-frame (λ r. r.deliveries ≡ ds);
  charges = refund_charge_to_wallet-frame (λ r. r.deliveries ≡ ds);
}

after_fail-deliveries :
    (id : ℕ) (r : FailureReason) (a : Bool) (db : Db)
    → (after_fail id r (some a) db).1.deliveries ≡ db.deliveries
unfolding after_fail
after_fail-deliveries id r a db =
    let P = λ (x : Db). x.deliveries ≡ db.deliveries in
    let s = Deliveries-IsSettling db.deliveries in
    >>=-Keeps P
      (cleanup_after_termination id (is_drone_fault_reason r) (failed_aircraft r a)
        >> announce_exception id delivery_failed (some r))
      (λ _. pure true)
      (>>=-Keeps P (cleanup_after_termination id (is_drone_fault_reason r) (failed_aircraft r a))
        (λ _. announce_exception id delivery_failed (some r)) (cleanup-Keeps P s id _ _)
        (λ _. announce-Keeps P s id _ _))
      (λ _ db h. h) db refl

module _ (id : ℕ) (db : Db) (d : Delivery) (keyed : IsKeyed delivery_key db.deliveries)
    (found : find_delivery id db ≡ some d) (r : FailureReason) (xs : List DeliveryStatus) where
  found_failed :
      (ys : List DeliveryStatus)
      → includes ys d.status ≡ true
      → find delivery_key id (after_failure id db d keyed found r ys).deliveries
        ≡ some (set_failed delivery_failed r d)
  unfolding after_failure
  found_failed ys h =
      rw
        (find-update_at delivery_key id id (status_in ys) (set_failed delivery_failed r)
          db.deliveries (λ x. refl))
        (ground arith)

  -- A delivery of an allowed status fails, with the reason.
  pub fail_hits :
      includes xs d.status ≡ true
      → find_delivery id (fail_exceptional id r xs none db).1
        ≡ some (set_failed delivery_failed r d)
  unfolding fail_exceptional fail_statements fail_airborne
  fail_hits h = elim (Bool-cases (includes failable_statuses d.status)) [
    | inr g ↦
        let inc =
          filter_keeps (λ s. not (includes failable_statuses s)) xs d.status h (rw g refl) in
        rw
          (
            fail_from_won id db d keyed found r (grounded_allowed xs) inc,
            after_fail-deliveries id r false
                (after_failure id db d keyed found r (grounded_allowed xs)),
          )
          (found_failed (grounded_allowed xs) inc)
    | inl g ↦
        let inc = filter_keeps (includes failable_statuses) xs d.status h g in
        let out = filter_drops (λ s. not (includes failable_statuses s)) xs d.status (rw g refl) in
        rw
          (
            fail_from_lost id db d keyed found r (grounded_allowed xs) out,
            fail_from_won id db d keyed found r (airborne_allowed xs) inc,
            after_fail-deliveries id r true
                (after_failure id db d keyed found r (airborne_allowed xs)),
          )
          (found_failed (airborne_allowed xs) inc)
  ]

excluded :
    (p : DeliveryStatus → Bool) (xs : List DeliveryStatus) (s : DeliveryStatus)
    → includes xs s ≡ false
    → includes (filter p xs) s ≡ false
excluded p [] s h = refl
excluded p (x ∷ xs) s h = elim (Bool-cases (p x)) [
  | inl e ↦ rw e (ground (arith, excluded p xs s))
  | inr e ↦ rw e (excluded p xs s (ground arith))
]

-- A delivery of no allowed status is left, with everything else.
pub fail_misses :
    (id : ℕ) (db : Db) (d : Delivery) (r : FailureReason) (xs : List DeliveryStatus)
    → IsKeyed delivery_key db.deliveries
    → find_delivery id db ≡ some d
    → includes xs d.status ≡ false
    → fail_exceptional id r xs none db ≡ (ok false, db)
unfolding fail_exceptional fail_statements fail_airborne after_fail
fail_misses id db d r xs keyed found h =
    rw
      (
        fail_from_lost id db d keyed found r (grounded_allowed xs) (excluded _ xs d.status h),
        fail_from_lost id db d keyed found r (airborne_allowed xs) (excluded _ xs d.status h),
      )
      refl

module _ (id : ℕ) (r : FailureReason) where
  -- The deliveries that a statement leaves: their keys, and every row but the one that it names.
  abbrev pub Leaves : Db → Db → Type 0
  Leaves db db' =
      (IsKeyed delivery_key db.deliveries → IsKeyed delivery_key db'.deliveries)
      × ((j : ℕ) → j ≢ id → find_delivery j db' ≡ find_delivery j db)

  Leaves-trans : (a b c : Db) → Leaves a b → Leaves b c → Leaves a c
  Leaves-trans a b c h k = (λ e. k.0 (h.0 e), λ j n. k.1 j n ∙ h.1 j n)

  fail_from-Leaves :
      (ys : List DeliveryStatus) (db : Db)
      → (n : ℕ) × (db' : Db) × (fail_from id r ys db ≡ (ok n, db')) × Leaves db db'
  unfolding fail_from update_delivery
  fail_from-Leaves ys db = elim (Bool-cases (is_empty ys)) [
    | inl e ↦ (0, db, rw e refl, (λ h. h, λ j n. refl))
    | inr e ↦ (
      count (at delivery_key id (status_in ys)) db.deliveries,
      record db {
        deliveries =
            update_many (at delivery_key id (status_in ys)) (set_failed delivery_failed r)
              db.deliveries;
      },
      rw e refl,
      (
        IsKeyed-update_many delivery_key _ (set_failed delivery_failed r) db.deliveries (λ d. refl),
        λ j n.
            find-update_at delivery_key j id (status_in ys) (set_failed delivery_failed r)
              db.deliveries (λ d. refl)
            ∙ elsewhere j n,
      ),
    )
  ]
    where
      elsewhere :
          (j : ℕ)
          → j ≢ id
          → (if j == id
              then map_row
                  (status_in ys)
                  (set_failed delivery_failed r)
                  (find delivery_key j db.deliveries)
              else find delivery_key j db.deliveries)
            ≡ find delivery_key j db.deliveries
      elsewhere j n = elim (Bool-cases (j == id)) [
        | inl e ↦ absurd (n (ground arith))
        | inr e ↦ rw e refl
      ]

  after-Leaves : (a : Bool) (db : Db) → Leaves db (after_fail id r (some a) db).1
  after-Leaves a db = (
    λ k. rw (after_fail-deliveries id r a db) k,
    λ j n. ap (find delivery_key j) (after_fail-deliveries id r a db),
  )

  -- A failure keeps the keys, and leaves every delivery but its own.
  pub fail-Leaves :
      (xs : List DeliveryStatus) (db : Db) → Leaves db (fail_exceptional id r xs none db).1
  unfolding fail_exceptional fail_statements fail_airborne
  fail-Leaves xs db =
      let (n, g, eg, lg) = fail_from-Leaves (grounded_allowed xs) db in
      let (m, a, ea, la) = fail_from-Leaves (airborne_allowed xs) g in
      elim (Bool-cases (n == 0)) [
        | inr e ↦
            rw (eg, e)
              (Leaves-trans db g (after_fail id r (some false) g).1 lg (after-Leaves false g))
        | inl e ↦ elim (Bool-cases (m == 0)) [
          | inl f ↦ rw (eg, e, ea, f) (Leaves-trans db g a lg la)
          | inr f ↦
              rw (eg, e, ea, f)
                (Leaves-trans db g (after_fail id r (some true) a).1 lg
                  (Leaves-trans g a (after_fail id r (some true) a).1 la (after-Leaves true a)))
        ]
      ]
