-- ===== src/Deliveries/Operations.antt =====
-- The operations of src/deliveries/deliveries.service.ts keep every stable invariant.
use drovery_backend.Base.{
  ℕ, Bool, true, false, not, Option, none, some, List, [], ◌∷◌, ◌==◌, if◌then◌else◌,
}
use drovery_backend.Store.{
  Db, Delivery, DeliveryStatus, FailureReason, pure, gets, throw_if, transaction, includes, ◌>>=◌,
  ◌>>◌, canceled, returning, delivery_failed, returned_to_base, cancelable_statuses,
  returnable_statuses, is_drone_fault_reason, cancel_bad_status, fail_bad_status,
  cancel_race_bad_status,
}
use drovery_backend.Store.Invariants.{
  Keeps-ok, Keeps, KeepsOk, transaction-Keeps, >>=-KeepsOk, >>=-Keeps, ite_Keeps, ite_KeepsOk,
  throw_if-Keeps,
}
use drovery_backend.Dispatch.{return_to_fleet, ground_for_inspection, release}
use drovery_backend.Deliveries.Transition.{
  status_in, set_status, set_failed, update_delivery, find_delivery, owned_by,
}
use drovery_backend.Deliveries.Termination.{
  release_as, still_airborne, cleanup_after_termination, announce_exception,
}
use drovery_backend.Deliveries.Cancel.{cancel_found, cancel, Audit, read_status, run_audit}
use drovery_backend.Deliveries.Exceptions.{
  airborne_allowed, grounded_allowed, is_empty, fail_from, fail_airborne, fail_statements,
  failed_aircraft, after_fail, fail_exceptional, returning_cleanup, begin_return_to_base, land,
  complete_return_to_base, after_admin_fail,
}
use drovery_backend.Deliveries.Stable.{
  IsStable, not_found_or-Keeps, owned_by-Keeps, cleanup-Keeps, announce-Keeps,
}
use drovery_backend.Deliveries.Moves.{
  AreLive, filter_live, cancel_moves, return_moves, landing_moves, fail_moves,
}

-- What an audit callback writes inside the transaction keeps the invariant.
abbrev pub AuditKeeps : (Db → Type 0) → Audit → Type 0
AuditKeeps P audit = (s : Option DeliveryStatus) → KeepsOk P (run_audit audit s)

module _ (P : Db → Type 0) (s : IsStable P) where
  cancel_found-Keeps : (id : ℕ) (d : Delivery) → Keeps P (cancel_found id d)
  unfolding cancel_found
  cancel_found-Keeps id d =
      >>=-Keeps P
        (throw_if (not (includes cancelable_statuses d.status)) cancel_bad_status
          >> update_delivery id (status_in cancelable_statuses) (set_status canceled))
        (λ won.
          throw_if (won == 0) cancel_race_bad_status
          >> cleanup_after_termination id true (release_as return_to_fleet)
          >> gets (find_delivery id))
        (>>=-Keeps P (throw_if (not (includes cancelable_statuses d.status)) cancel_bad_status)
          (λ _. update_delivery id (status_in cancelable_statuses) (set_status canceled))
          (throw_if-Keeps P _ _) (λ _. s.updates id _ _ cancel_moves))
        (λ won.
          >>=-Keeps P
            (throw_if (won == 0) cancel_race_bad_status
              >> cleanup_after_termination id true (release_as return_to_fleet))
            (λ _. gets (find_delivery id))
            (>>=-Keeps P (throw_if (won == 0) cancel_race_bad_status)
              (λ _. cleanup_after_termination id true (release_as return_to_fleet))
              (throw_if-Keeps P _ _)
              (λ _. cleanup-Keeps P s.settling id true (release_as return_to_fleet)))
            (λ _ db h. h))

  pub cancel-Keeps : (uid id : ℕ) → Keeps P (cancel uid id)
  unfolding cancel
  cancel-Keeps uid id db =
      >>=-Keeps P (owned_by uid (find_delivery id db)) (cancel_found id)
        (owned_by-Keeps P uid (find_delivery id db)) (cancel_found-Keeps id) db

  fail_from-Keeps :
      (id : ℕ) (r : FailureReason) (xs : List DeliveryStatus)
      → AreLive xs
      → Keeps P (fail_from id r xs)
  unfolding fail_from
  fail_from-Keeps id r xs live =
      ite_Keeps P (is_empty xs) (pure 0)
        (update_delivery id (status_in xs) (set_failed delivery_failed r)) (λ db h. h)
        (s.updates id _ _ (fail_moves xs r live))

  after_fail-Keeps : (id : ℕ) (r : FailureReason) (o : Option Bool) → Keeps P (after_fail id r o)
  unfolding after_fail
  after_fail-Keeps id r none db h = h
  after_fail-Keeps id r (some a) db h =
      >>=-Keeps P
        (cleanup_after_termination id (is_drone_fault_reason r) (failed_aircraft r a)
          >> announce_exception id delivery_failed (some r))
        (λ _. pure true)
        (>>=-Keeps P (cleanup_after_termination id (is_drone_fault_reason r) (failed_aircraft r a))
          (λ _. announce_exception id delivery_failed (some r)) (cleanup-Keeps P s.settling id _ _)
          (λ _. announce-Keeps P s.settling id _ _))
        (λ _ db h. h) db h

  returning_cleanup-Keeps : (id : ℕ) (r : FailureReason) → Keeps P (returning_cleanup id r)
  unfolding returning_cleanup
  returning_cleanup-Keeps id r =
      >>=-Keeps P
        (cleanup_after_termination id (is_drone_fault_reason r) still_airborne
          >> announce_exception id returning (some r))
        (λ _. pure true)
        (>>=-Keeps P (cleanup_after_termination id (is_drone_fault_reason r) still_airborne)
          (λ _. announce_exception id returning (some r)) (cleanup-Keeps P s.settling id _ _)
          (λ _. announce-Keeps P s.settling id _ _))
        (λ _ db h. h)

  pub begin_return_to_base-Keeps :
      (id : ℕ) (r : FailureReason) → Keeps P (begin_return_to_base id r)
  unfolding begin_return_to_base
  begin_return_to_base-Keeps id r =
      >>=-Keeps P (update_delivery id (status_in returnable_statuses) (set_failed returning r))
        (λ won. if won == 0 then pure false else returning_cleanup id r)
        (s.updates id _ _ (return_moves r))
        (λ won.
          ite_Keeps P (won == 0) (pure false) (returning_cleanup id r) (λ db h. h)
            (returning_cleanup-Keeps id r))

  land-Keeps : (id : ℕ) → Keeps P (land id)
  unfolding land
  land-Keeps id =
      >>=-Keeps P (release id ground_for_inspection >> announce_exception id returned_to_base none)
        (λ _. pure true)
        (>>=-Keeps P (release id ground_for_inspection)
          (λ _. announce_exception id returned_to_base none)
          (s.settling.releases id ground_for_inspection) (λ _. announce-Keeps P s.settling id _ _))
        (λ _ db h. h)

  pub complete_return_to_base-Keeps : (id : ℕ) → Keeps P (complete_return_to_base id)
  unfolding complete_return_to_base
  complete_return_to_base-Keeps id =
      >>=-Keeps P (update_delivery id (status_in (returning ∷ [])) (set_status returned_to_base))
        (λ won. if won == 0 then pure false else land id) (s.updates id _ _ landing_moves)
        (λ won. ite_Keeps P (won == 0) (pure false) (land id) (λ db h. h) (land-Keeps id))

  module _ (audit : Audit) (ha : AuditKeeps P audit) where
    pub read_status-Keeps : (id : ℕ) → Keeps P (read_status audit id)
    read_status-Keeps id = elim audit as (λ a. Keeps P (read_status a id)) [
      | none ↦ λ db h. h
      | some f ↦ λ db h. h
    ]

    pub recorded-KeepsOk :
        {A : Type 0} (st : Option DeliveryStatus) (a : A) → KeepsOk P (run_audit audit st >> pure a)
    recorded-KeepsOk st a = >>=-KeepsOk P (run_audit audit st) (λ _. pure a) (ha st) (λ _ db h. h)

    fail_airborne-KeepsOk :
        (id : ℕ) (r : FailureReason) (xs : List DeliveryStatus) (st : Option DeliveryStatus)
        → AreLive xs
        → KeepsOk P (fail_airborne id r xs audit st)
    unfolding fail_airborne
    fail_airborne-KeepsOk id r xs st live =
        >>=-KeepsOk P (fail_from id r (airborne_allowed xs))
          (λ won. if won == 0 then pure none else (run_audit audit st >> pure (some true)))
          (Keeps-ok P (fail_from id r (airborne_allowed xs))
            (fail_from-Keeps id r _ (filter_live _ xs live)))
          (λ won.
            ite_KeepsOk P (won == 0) (pure none) (run_audit audit st >> pure (some true))
              (λ db h. h) (recorded-KeepsOk st (some true)))

    fail_statements-KeepsOk :
        (id : ℕ) (r : FailureReason) (xs : List DeliveryStatus)
        → AreLive xs
        → KeepsOk P (fail_statements id r xs audit)
    unfolding fail_statements
    fail_statements-KeepsOk id r xs live =
        >>=-KeepsOk P (read_status audit id)
          (λ st. fail_from id r (grounded_allowed xs) >>= λ won.
            if won == 0
            then fail_airborne id r xs audit st
            else (run_audit audit st >> pure (some false)))
          (Keeps-ok P (read_status audit id) (read_status-Keeps id))
          (λ st.
            >>=-KeepsOk P (fail_from id r (grounded_allowed xs))
              (λ won.
                if won == 0
                then fail_airborne id r xs audit st
                else (run_audit audit st >> pure (some false)))
              (Keeps-ok P (fail_from id r (grounded_allowed xs))
                (fail_from-Keeps id r _ (filter_live _ xs live)))
              (λ won.
                ite_KeepsOk P (won == 0) (fail_airborne id r xs audit st)
                  (run_audit audit st >> pure (some false)) (fail_airborne-KeepsOk id r xs st live)
                  (recorded-KeepsOk st (some false))))

    pub fail_exceptional-Keeps :
        (id : ℕ) (r : FailureReason) (xs : List DeliveryStatus)
        → AreLive xs
        → Keeps P (fail_exceptional id r xs audit)
    unfolding fail_exceptional
    fail_exceptional-Keeps id r xs live =
        >>=-Keeps P (transaction (fail_statements id r xs audit)) (after_fail id r)
          (transaction-Keeps P (fail_statements id r xs audit)
            (fail_statements-KeepsOk id r xs live))
          (after_fail-Keeps id r)

    pub after_admin_fail-Keeps : (id : ℕ) (b : Bool) → Keeps P (after_admin_fail id b)
    unfolding after_admin_fail
    after_admin_fail-Keeps id true db h = h
    after_admin_fail-Keeps id false db h =
        not_found_or-Keeps P fail_bad_status (find_delivery id db) db h
