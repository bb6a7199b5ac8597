-- ===== src/Deliveries/Settled.antt =====
-- A delivery that has ended is inert: what the operations of src/deliveries/deliveries.service.ts
-- do to it.
use drovery_backend.Base.{
  ℕ, Bool, true, false, none, some, List, [], ◌∷◌, ◌≡◌, refl, arith, Bool-cases, inl, inr,
}
use drovery_backend.Base.Table.{at, count, count-at, IsKeyed, update_many-count_zero}
use drovery_backend.Store.{
  Db, Delivery, delivery_key, DeliveryStatus, FailureReason, includes, terminal_statuses,
  failable_statuses, returnable_statuses, returning, returned_to_base, delivery_failed, canceled,
  ok, err, fail_bad_status, cancel_race_bad_status,
}
use drovery_backend.Deliveries.Transition.{
  status_in, set_status, set_failed, update_delivery, find_delivery,
}
use drovery_backend.Deliveries.Cancel.{
  admin_force_cancel, force_cancel_statements, force_cancel_airborne, after_force_cancel,
  is_pre_launch,
}
use drovery_backend.Deliveries.Exceptions.{
  fail_exceptional, fail_statements, fail_airborne, fail_from, after_fail, airborne_allowed,
  grounded_allowed, is_empty, begin_return_to_base, complete_return_to_base, admin_fail,
  after_admin_fail,
}
use drovery_backend.Deliveries.Moves.{AreLive, member_live, filter_live, failable-AreLive}

abbrev pub is_settled : Delivery → Bool
is_settled d = includes terminal_statuses d.status

module _ (id : ℕ) (db : Db) (d : Delivery) (keyed : IsKeyed delivery_key db.deliveries)
    (found : find_delivery id db ≡ some d) where
  -- An update whose guard the row does not meet matches nothing and changes nothing.
  pub update_unmatched :
      (guard : Delivery → Bool) (change : Delivery → Delivery)
      → guard d ≡ false
      → update_delivery id guard change db ≡ (ok 0, db)
  unfolding update_delivery
  update_unmatched guard change h =
      let none_matches : count (at delivery_key id guard) db.deliveries ≡ 0 =
        ground (arith, count-at delivery_key id guard db.deliveries keyed) in
      rw
        (
          none_matches,
          update_many-count_zero (at delivery_key id guard) change db.deliveries none_matches,
        )
        refl

  module _ (settled : is_settled d ≡ true) where
    not_in : (xs : List DeliveryStatus) → AreLive xs → includes xs d.status ≡ false
    not_in xs live = elim (Bool-cases (includes xs d.status)) [
      | inl e ↦ absurd (clash (member_live xs d.status live e))
      | inr e ↦ e
    ]
      where
        clash : includes terminal_statuses d.status ≡ false → ⊥
        clash h = cc

    fail_from_settled :
        (r : FailureReason) (xs : List DeliveryStatus)
        → AreLive xs
        → fail_from id r xs db ≡ (ok 0, db)
    unfolding fail_from
    fail_from_settled r xs live = elim (Bool-cases (is_empty xs)) [
      | inl e ↦ rw e refl
      | inr e ↦
          rw e (update_unmatched (status_in xs) (set_failed delivery_failed r) (not_in xs live))
    ]

    pub fail_settled :
        (r : FailureReason) (xs : List DeliveryStatus)
        → AreLive xs
        → fail_exceptional id r xs none db ≡ (ok false, db)
    unfolding fail_exceptional fail_statements fail_airborne after_fail
    fail_settled r xs live =
        rw
          (
            fail_from_settled r (grounded_allowed xs) (filter_live _ xs live),
            fail_from_settled r (airborne_allowed xs) (filter_live _ xs live),
          )
          refl

    begin_settled : (r : FailureReason) → begin_return_to_base id r db ≡ (ok false, db)
    unfolding begin_return_to_base
    begin_settled r =
        rw
          (update_unmatched (status_in returnable_statuses) (set_failed returning r) (ground arith))
          refl

    complete_settled : complete_return_to_base id db ≡ (ok false, db)
    unfolding complete_return_to_base
    complete_settled =
        rw
          (update_unmatched (status_in (returning ∷ [])) (set_status returned_to_base)
            (ground arith))
          refl

    force_cancel_settled : admin_force_cancel id none db ≡ (err cancel_race_bad_status, db)
    unfolding admin_force_cancel force_cancel_statements force_cancel_airborne after_force_cancel
    force_cancel_settled =
        rw
          (
            update_unmatched is_pre_launch (set_status canceled) (ground arith),
            update_unmatched (status_in failable_statuses) (set_status canceled) (ground arith),
            found,
          )
          refl

    admin_fail_settled : (r : FailureReason) → admin_fail id r none db ≡ (err fail_bad_status, db)
    unfolding admin_fail after_admin_fail
    admin_fail_settled r = rw (fail_settled r failable_statuses failable-AreLive, found) refl

  -- A delivery that has ended stays as it is: no failure, return, landing or admin's action moves
  -- it or touches anything else.
  pub settled_inert :
      (r : FailureReason) (xs : List DeliveryStatus)
      → is_settled d ≡ true
      → AreLive xs
      → (fail_exceptional id r xs none db ≡ (ok false, db))
        × (begin_return_to_base id r db ≡ (ok false, db))
        × (complete_return_to_base id db ≡ (ok false, db))
        × (admin_force_cancel id none db ≡ (err cancel_race_bad_status, db))
        × (admin_fail id r none db ≡ (err fail_bad_status, db))
  settled_inert r xs s live = (
    fail_settled s r xs live,
    begin_settled s r,
    complete_settled s,
    force_cancel_settled s,
    admin_fail_settled s r,
  )
