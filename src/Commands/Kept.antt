-- ===== src/Commands/Kept.antt =====
-- The calls of src/deliveries/commands/drone-command.service.ts keep what every driver of a flight
-- keeps.
use drovery_backend.Base.{
  ℕ, Bool, true, false, not, Option, none, some, ◌&&◌, ◌||◌, ◌==◌, leb, if◌then◌else◌, arith,
  Bool-cases, inl, inr,
}
use drovery_backend.Base.Table.{find, at, count}
use drovery_backend.Store.{
  Db, Delivery, DroneCommand, CommandType, CommandStatus, return_to_base, abort, FailureReason,
  command_key, delivery_key, failable_statuses, push_command, Result, ok, err, unique_violation,
  pure, gets, throw_if, or_throw, transaction, ◌>>=◌, ◌>>◌, is_live, includes, delivery_not_found,
  command_live_only, command_no_drone, command_illegal_for_status, command_not_found,
  command_drone_not_assigned, command_not_awaiting_ack,
}
use drovery_backend.Store.Invariants.{
  Keeps, Keeps-ok, transaction-Keeps, >>=-Keeps, ite_Keeps, throw_if-Keeps,
}
use drovery_backend.Deliveries.{begin_return_to_base, fail_exceptional}
use drovery_backend.Commands.Driven.{IsDriven, or_throw-Keeps}
use drovery_backend.Deliveries.Moves.{failable-AreLive}
use drovery_backend.Deliveries.Operations.{begin_return_to_base-Keeps, fail_exceptional-Keeps}
use drovery_backend.Commands.Open.{
  OpensNone, update-OneOpen, at-OpensNone, open_for, append-one, claimed_closed,
}
use drovery_backend.Commands.Defs.{
  is_open_command, append_command, insert_command, audit_command, issue_statements, report_pending,
  create_command, command_row, push_created, create_and_push, check_limit, legal_statuses,
  issue_for, issue_on, issue, flies, update_command, is_pending_command, set_fetched, still_fetched,
  view_of, take_pending, fetch_found, fetch_pending, set_command_status, set_claimed, is_fetched,
  mark_applied, apply_command, record_outcome, after_claim, expire, claim_ack, ack,
}

module _ (P : Db → Type 0) (v : IsDriven P) where
  pub update_command-Keeps :
      (id : ℕ) (g : DroneCommand → Bool) (f : DroneCommand → DroneCommand)
      → OpensNone g f
      → Keeps P (update_command id g f)
  unfolding update_command
  update_command-Keeps id g f k db h =
      v.orders db _ (update-OneOpen (at command_key id g) f db.commands (at-OpensNone id g f k)) h

  insert_command-Keeps : (c : DroneCommand) → Keeps P (insert_command c)
  unfolding insert_command
  insert_command-Keeps c db h =
      elim (Bool-cases (leb 1 (count (open_for c.delivery_id) db.commands))) [
        | inl e ↦ rw e h
        | inr e ↦ rw e (
            v.orders db (append_command db.commands c)
              (λ one did. append-one c db.commands did e (one did)) h)
      ]

  issue_statements-Keeps : (c : DroneCommand) → Keeps P (issue_statements none c)
  unfolding issue_statements
  issue_statements-Keeps c =
      >>=-Keeps P (insert_command c >> audit_command none c) (λ _. pure c)
        (>>=-Keeps P (insert_command c) (λ _. audit_command none c) (insert_command-Keeps c)
          (λ _ db h. h))
        (λ _ db h. h)

  reported : (o : Result DroneCommand × Db) → P o.1 → P (report_pending o).1
  reported (ok c, db) h = h
  reported (err (unique_violation k), db) h = h
  reported (err _, db) h = h

  create_command-Keeps : (c : DroneCommand) → Keeps P (create_command none c)
  unfolding create_command
  create_command-Keeps c db h = reported (transaction (issue_statements none c) db) (
      transaction-Keeps P (issue_statements none c)
        (Keeps-ok P (issue_statements none c) (issue_statements-Keeps c)) db h)

  create_and_push-Keeps :
      (id : ℕ) (admin : Option ℕ) (t : CommandType) (r : Option FailureReason) (d : Delivery)
      (drone : ℕ)
      → Keeps P (create_and_push id admin t r none d drone)
  unfolding create_and_push
  create_and_push-Keeps id admin t r d drone db =
      >>=-Keeps P (create_command none (command_row id admin t r d drone db.now)) push_created
        (create_command-Keeps _) (λ c. v.stable.settling.emits (push_command c.id)) db

  check_limit-Keeps : (id : ℕ) → Keeps P (check_limit id)
  unfolding check_limit
  check_limit-Keeps id db h = throw_if-Keeps P _ _ db h

  issue_for-Keeps :
      (id : ℕ) (admin : Option ℕ) (t : CommandType) (r : Option FailureReason) (d : Delivery)
      (drone : ℕ)
      → Keeps P (issue_for id admin t r none d drone)
  unfolding issue_for
  issue_for-Keeps id admin t r d drone =
      >>=-Keeps P
        (throw_if (not (includes (legal_statuses t) d.status)) command_illegal_for_status
          >> check_limit d.id)
        (λ _. create_and_push id admin t r none d drone)
        (>>=-Keeps P
          (throw_if (not (includes (legal_statuses t) d.status)) command_illegal_for_status)
          (λ _. check_limit d.id) (throw_if-Keeps P _ _) (λ _. check_limit-Keeps d.id))
        (λ _. create_and_push-Keeps id admin t r d drone)

  issue_on-Keeps :
      (id : ℕ) (admin : Option ℕ) (t : CommandType) (r : Option FailureReason) (d : Delivery)
      → Keeps P (issue_on id admin t r none d)
  unfolding issue_on
  issue_on-Keeps id admin t r d =
      >>=-Keeps P
        (throw_if (not (is_live d.tracking_source)) command_live_only
          >> or_throw d.assigned_drone_id command_no_drone)
        (issue_for id admin t r none d)
        (>>=-Keeps P (throw_if (not (is_live d.tracking_source)) command_live_only)
          (λ _. or_throw d.assigned_drone_id command_no_drone) (throw_if-Keeps P _ _)
          (λ _. or_throw-Keeps P d.assigned_drone_id command_no_drone))
        (issue_for-Keeps id admin t r d)

  pub issue-Keeps :
      (id : ℕ) (admin : Option ℕ) (did : ℕ) (t : CommandType) (r : Option FailureReason)
      → Keeps P (issue id admin did t r none)
  unfolding issue
  issue-Keeps id admin did t r db =
      >>=-Keeps P (or_throw (find delivery_key did db.deliveries) delivery_not_found)
        (issue_on id admin t r none) (or_throw-Keeps P _ _) (issue_on-Keeps id admin t r) db

  take_pending-Keeps : (c : DroneCommand) → Keeps P (take_pending c)
  unfolding take_pending
  take_pending-Keeps c db =
      >>=-Keeps P (update_command c.id is_pending_command (set_fetched db.now))
        (λ won. gets (λ db. find command_key c.id db.commands) >>= λ fresh.
          if leb 1 won || still_fetched fresh then pure (some (view_of c)) else pure none)
        (update_command-Keeps c.id is_pending_command (set_fetched db.now)
          (λ did x g o. ground (arith, g, o)))
        (λ won db'.
          ite_Keeps P (leb 1 won || still_fetched (find command_key c.id db'.commands))
            (pure (some (view_of c))) (pure none) (λ db h. h) (λ db h. h) db')
        db

  fetch_found-Keeps : (drone : ℕ) (o : Option DroneCommand) → Keeps P (fetch_found drone o)
  unfolding fetch_found
  fetch_found-Keeps drone none db h = h
  fetch_found-Keeps drone (some c) db h =
      ite_Keeps P (not (flies drone (find delivery_key c.delivery_id db.deliveries))) (pure none)
        (if is_pending_command c then take_pending c else pure (some (view_of c))) (λ db h. h)
        (ite_Keeps P (is_pending_command c) (take_pending c) (pure (some (view_of c)))
          (take_pending-Keeps c) (λ db h. h))
        db h

  pub fetch_pending-Keeps : (drone : ℕ) → Keeps P (fetch_pending drone)
  unfolding fetch_pending
  fetch_pending-Keeps drone db h = fetch_found-Keeps drone _ db h

  pub apply_command-Keeps : (c : DroneCommand) → Keeps P (apply_command c)
  apply_command-Keeps c =
      elim c.type
        as (λ t. Keeps P (elim t [
          | return_to_base ↦ begin_return_to_base c.delivery_id c.reason
          | abort ↦ fail_exceptional c.delivery_id c.reason failable_statuses none
        ])) [
          | return_to_base ↦ begin_return_to_base-Keeps P v.stable c.delivery_id c.reason
          | abort ↦
              fail_exceptional-Keeps P v.stable none (λ _ db h. h) c.delivery_id c.reason
                failable_statuses failable-AreLive
        ]

  record_outcome-Keeps : (id : ℕ) (applied : Bool) → Keeps P (record_outcome id applied)
  unfolding record_outcome
  record_outcome-Keeps id true db h =
      update_command-Keeps id (λ c. true) mark_applied (λ did c g o. o) db h
  record_outcome-Keeps id false db h =
      update_command-Keeps id (λ c. true) (set_command_status CommandStatus.rejected)
        (λ did c g o. ground (arith, o)) db h

  after_claim-Keeps : (c : DroneCommand) (accepted : Bool) → Keeps P (after_claim c accepted)
  unfolding after_claim
  after_claim-Keeps c true db h =
      >>=-Keeps P (apply_command c) (record_outcome c.id) (apply_command-Keeps c)
        (record_outcome-Keeps c.id) db h
  after_claim-Keeps c false db h = h

  claim_ack-Keeps : (c : DroneCommand) (accepted : Bool) → Keeps P (claim_ack c accepted)
  unfolding claim_ack
  claim_ack-Keeps c accepted db =
      >>=-Keeps P (update_command c.id is_fetched (set_claimed db.now accepted))
        (λ won. throw_if (won == 0) command_not_awaiting_ack >> after_claim c accepted)
        (update_command-Keeps c.id is_fetched (set_claimed db.now accepted)
          (λ did x g o. claimed_closed db.now did accepted x o))
        (λ won.
          >>=-Keeps P (throw_if (won == 0) command_not_awaiting_ack) (λ _. after_claim c accepted)
            (throw_if-Keeps P _ _) (λ _. after_claim-Keeps c accepted))
        db

  expire-Keeps : (id : ℕ) → Keeps P (expire id)
  unfolding expire
  expire-Keeps id db h =
      update_command-Keeps id is_open_command (set_command_status CommandStatus.expired)
        (λ did c g o. ground (arith, o)) db h

  pub ack-Keeps : (id drone : ℕ) (accepted : Bool) → Keeps P (ack id drone accepted)
  unfolding ack
  ack-Keeps id drone accepted db =
      >>=-Keeps P (or_throw (find command_key id db.commands) command_not_found) _
        (or_throw-Keeps P _ _)
        (λ c db'.
          >>=-Keeps P
            (throw_if
              (not (
                c.drone_id == drone
                && flies drone (find delivery_key c.delivery_id db'.deliveries)))
              command_drone_not_assigned)
            _ (throw_if-Keeps P _ _)
            (λ _ db''.
              ite_Keeps P (leb c.expires_at db''.now) (expire id) (claim_ack c accepted)
                (expire-Keeps id) (claim_ack-Keeps c accepted) db'')
            db')
        db
