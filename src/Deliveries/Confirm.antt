-- ===== src/Deliveries/Confirm.antt =====
-- The handoff, the admin's cancel and fail of src/deliveries/deliveries.service.ts keep every
-- stable invariant.
use drovery_backend.Base.{ℕ, true, not, Option, none, some, [], ◌∷◌, ◌||◌, ◌==◌, leb, if◌then◌else◌}
use drovery_backend.Base.Text.{Text}
use drovery_backend.Store.{
  Db, Delivery, FailureReason, pure, throw, gets, throw_if, best_effort, emit, transaction,
  status_eq, ◌>>=◌, ◌>>◌, delivered, canceled, awaiting_handoff, failable_statuses,
  recipient_unavailable, auto_proof, cancel_race_bad_status, handoff_already_completed,
  handoff_not_awaiting, handoff_locked, handoff_invalid_code,
}
use drovery_backend.Store.Invariants.{
  Keeps-ok, Keeps, KeepsOk, transaction-Keeps, >>=-KeepsOk, >>=-Keeps, ite_Keeps, ite_KeepsOk,
  throw_if-Keeps,
}
use drovery_backend.Dispatch.{return_to_fleet, ground_for_inspection, release}
use drovery_backend.Deliveries.Transition.{
  status_in, set_status, update_delivery, find_delivery, owned_by,
}
use drovery_backend.Deliveries.Termination.{
  AircraftDisposition, release_as, cleanup_after_termination,
}
use drovery_backend.Deliveries.Cancel.{
  Audit, read_status, run_audit, is_pre_launch, force_cancel_airborne, force_cancel_statements,
  after_force_cancel, admin_force_cancel,
}
use drovery_backend.Deliveries.Exceptions.{fail_exceptional, after_admin_fail, admin_fail}
use drovery_backend.Deliveries.Handoff.{
  max_handoff_attempts, has_attempts_left, count_attempt, confirm_at, attempts_of,
  handoff_code_matches, lock_handoff, reject_code, accept_code, verify_code, confirm_handoff,
}
use drovery_backend.Deliveries.Stable.{IsStable, not_found_or-Keeps, owned_by-Keeps, cleanup-Keeps}
use drovery_backend.Deliveries.Moves.{
  failable-AreLive, force_cancel_moves, airborne_cancel_moves, confirm_moves, attempt_moves,
}
use drovery_backend.Deliveries.Operations.{
  AuditKeeps, read_status-Keeps, recorded-KeepsOk, fail_exceptional-Keeps, after_admin_fail-Keeps,
}

module _ (P : Db → Type 0) (s : IsStable P) where
  module _ (audit : Audit) (ha : AuditKeeps P audit) where
    pub admin_fail-Keeps : (id : ℕ) (r : FailureReason) → Keeps P (admin_fail id r audit)
    unfolding admin_fail
    admin_fail-Keeps id r =
        >>=-Keeps P (fail_exceptional id r failable_statuses audit) (after_admin_fail id)
          (fail_exceptional-Keeps P s audit ha id r failable_statuses failable-AreLive)
          (after_admin_fail-Keeps P s audit ha id)

    force_cancel_airborne-KeepsOk : (id : ℕ) → KeepsOk P (force_cancel_airborne id audit)
    unfolding force_cancel_airborne
    force_cancel_airborne-KeepsOk id =
        >>=-KeepsOk P (read_status audit id)
          (λ st. update_delivery id (status_in failable_statuses) (set_status canceled) >>= λ won.
            if won == 0
            then pure none
            else (run_audit audit st >> pure (some (release_as ground_for_inspection))))
          (Keeps-ok P (read_status audit id) (read_status-Keeps P s audit ha id))
          (λ st.
            >>=-KeepsOk P (update_delivery id (status_in failable_statuses) (set_status canceled))
              (λ won.
                if won == 0
                then pure none
                else (run_audit audit st >> pure (some (release_as ground_for_inspection))))
              (Keeps-ok P (update_delivery id (status_in failable_statuses) (set_status canceled))
                (s.updates id _ _ airborne_cancel_moves))
              (λ won.
                ite_KeepsOk P (won == 0) (pure none)
                  (run_audit audit st >> pure (some (release_as ground_for_inspection))) (λ db h. h)
                  (recorded-KeepsOk P s audit ha st _)))

    force_cancel_statements-KeepsOk : (id : ℕ) → KeepsOk P (force_cancel_statements id audit)
    unfolding force_cancel_statements
    force_cancel_statements-KeepsOk id =
        >>=-KeepsOk P (read_status audit id)
          (λ st. update_delivery id is_pre_launch (set_status canceled) >>= λ won.
            if won == 0
            then force_cancel_airborne id audit
            else (run_audit audit st >> pure (some (release_as return_to_fleet))))
          (Keeps-ok P (read_status audit id) (read_status-Keeps P s audit ha id))
          (λ st.
            >>=-KeepsOk P (update_delivery id is_pre_launch (set_status canceled))
              (λ won.
                if won == 0
                then force_cancel_airborne id audit
                else (run_audit audit st >> pure (some (release_as return_to_fleet))))
              (Keeps-ok P (update_delivery id is_pre_launch (set_status canceled))
                (s.updates id _ _ force_cancel_moves))
              (λ won.
                ite_KeepsOk P (won == 0) (force_cancel_airborne id audit)
                  (run_audit audit st >> pure (some (release_as return_to_fleet)))
                  (force_cancel_airborne-KeepsOk id) (recorded-KeepsOk P s audit ha st _)))

    after_force_cancel-Keeps :
        (id : ℕ) (o : Option AircraftDisposition) → Keeps P (after_force_cancel id o)
    unfolding after_force_cancel
    after_force_cancel-Keeps id none db h =
        not_found_or-Keeps P cancel_race_bad_status (find_delivery id db) db h
    after_force_cancel-Keeps id (some a) db h =
        >>=-Keeps P (cleanup_after_termination id true a) (λ _. gets (find_delivery id))
          (cleanup-Keeps P s.settling id true a) (λ _ db h. h) db h

    pub admin_force_cancel-Keeps : (id : ℕ) → Keeps P (admin_force_cancel id audit)
    unfolding admin_force_cancel
    admin_force_cancel-Keeps id =
        >>=-Keeps P (transaction (force_cancel_statements id audit)) (after_force_cancel id)
          (transaction-Keeps P (force_cancel_statements id audit)
            (force_cancel_statements-KeepsOk id))
          (after_force_cancel-Keeps id)

  lock_handoff-Keeps : (id : ℕ) → Keeps P (lock_handoff id)
  unfolding lock_handoff
  lock_handoff-Keeps id =
      >>=-Keeps P (fail_exceptional id recipient_unavailable failable_statuses none)
        (λ _. throw handoff_locked)
        (fail_exceptional-Keeps P s none (λ _ db h. h) id recipient_unavailable failable_statuses
          failable-AreLive)
        (λ _ db h. h)

  reject_code-Keeps : (id : ℕ) → Keeps P (reject_code id)
  unfolding reject_code
  reject_code-Keeps id =
      >>=-Keeps P (update_delivery id has_attempts_left count_attempt)
        (λ n. gets (find_delivery id) >>= λ after.
          if n == 0 || leb max_handoff_attempts (attempts_of after)
          then lock_handoff id
          else throw handoff_invalid_code)
        (s.updates id _ _ attempt_moves)
        (λ n db.
          ite_Keeps P (n == 0 || leb max_handoff_attempts (attempts_of (find_delivery id db)))
            (lock_handoff id) (throw handoff_invalid_code) (lock_handoff-Keeps id) (λ db h. h) db)

  accept_code-Keeps : (uid id : ℕ) → Keeps P (accept_code uid id)
  unfolding accept_code
  accept_code-Keeps uid id db =
      >>=-Keeps P (update_delivery id (status_in (awaiting_handoff ∷ [])) (confirm_at db.now))
        (λ won. throw_if (won == 0) handoff_already_completed >>= λ _.
          release id return_to_fleet >>= λ _.
          best_effort (emit (auto_proof id)) >>= λ _. gets (find_delivery id) >>= owned_by uid)
        (s.updates id _ _ (confirm_moves db.now))
        (λ won.
          >>=-Keeps P (throw_if (won == 0) handoff_already_completed)
            (λ _. release id return_to_fleet >>= λ _.
              best_effort (emit (auto_proof id)) >>= λ _. gets (find_delivery id) >>= owned_by uid)
            (throw_if-Keeps P _ _)
            (λ _.
              >>=-Keeps P (release id return_to_fleet)
                (λ _. best_effort (emit (auto_proof id)) >>= λ _.
                  gets (find_delivery id) >>= owned_by uid)
                (s.settling.releases id return_to_fleet)
                (λ _.
                  >>=-Keeps P (best_effort (emit (auto_proof id)))
                    (λ _. gets (find_delivery id) >>= owned_by uid)
                    (s.settling.emits (auto_proof id))
                    (λ _ db. owned_by-Keeps P uid (find_delivery id db) db))))
        db

  verify_code-Keeps :
      (digest : Text → ℕ) (uid id : ℕ) (code : Text) (d : Delivery)
      → Keeps P (verify_code digest uid id code d)
  unfolding verify_code
  verify_code-Keeps digest uid id code d =
      ite_Keeps P (leb max_handoff_attempts d.handoff_attempts) (lock_handoff id)
        (if handoff_code_matches digest code d.handoff_code_hash
          then accept_code uid id
          else reject_code id)
        (lock_handoff-Keeps id)
        (ite_Keeps P (handoff_code_matches digest code d.handoff_code_hash) (accept_code uid id)
          (reject_code id) (accept_code-Keeps uid id) (reject_code-Keeps id))

  pub confirm_handoff-Keeps :
      (digest : Text → ℕ) (uid id : ℕ) (code : Text) → Keeps P (confirm_handoff digest uid id code)
  unfolding confirm_handoff
  confirm_handoff-Keeps digest uid id code db =
      >>=-Keeps P (owned_by uid (find_delivery id db))
        (λ d. throw_if (status_eq d.status delivered) handoff_already_completed >>= λ _.
          throw_if (not (status_eq d.status awaiting_handoff)) handoff_not_awaiting >>= λ _.
          verify_code digest uid id code d)
        (owned_by-Keeps P uid (find_delivery id db))
        (λ d.
          >>=-Keeps P (throw_if (status_eq d.status delivered) handoff_already_completed)
            (λ _. throw_if (not (status_eq d.status awaiting_handoff)) handoff_not_awaiting >>= λ _.
              verify_code digest uid id code d)
            (throw_if-Keeps P _ _)
            (λ _.
              >>=-Keeps P
                (throw_if (not (status_eq d.status awaiting_handoff)) handoff_not_awaiting)
                (λ _. verify_code digest uid id code d) (throw_if-Keeps P _ _)
                (λ _. verify_code-Keeps digest uid id code d)))
        db
