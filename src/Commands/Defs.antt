-- ===== src/Commands/Defs.antt =====
-- `issue`, `fetchPending` and `ack` of src/deliveries/commands/drone-command.service.ts, with the
-- limits of src/deliveries/commands/command.constants.ts. The table is in the order of `createdAt`;
-- notes are not kept.
use drovery_backend.Base.{
  ℕ, ◌+◌, Bool, true, false, not, Option, none, some, List, [], ◌∷◌, ◌&&◌, ◌||◌, ◌==◌, ◌==?◌, leb,
  ltb, if◌then◌else◌,
}
use drovery_backend.Base.Table.{find, find_first, count, update_many, at}
use drovery_backend.Store.{
  Db, Delivery, DroneCommand, command_key, delivery_key, CommandType, return_to_base, abort,
  CommandStatus, DeliveryStatus, FailureReason, weather_abort, admin_abort, includes,
  returnable_statuses, failable_statuses, is_live, push_command, Result, ok, err, Action, ⊤,
  AppError, unique_violation, open_command, delivery_not_found, command_live_only, command_no_drone,
  command_illegal_for_status, command_limit_reached, command_already_pending, command_not_found,
  command_drone_not_assigned, command_expired, command_not_awaiting_ack, pure, throw, gets, modify,
  or_throw, throw_if, transaction, best_effort, emit, ◌>>=◌, ◌>>◌,
}
use drovery_backend.Deliveries.{begin_return_to_base, fail_exceptional}

abbrev pub command_ttl : ℕ
command_ttl = 300000

abbrev pub max_commands : ℕ
max_commands = 50

abbrev pub legal_statuses : CommandType → List DeliveryStatus
legal_statuses return_to_base = returnable_statuses
legal_statuses abort = failable_statuses

abbrev pub default_reason : CommandType → FailureReason
default_reason return_to_base = weather_abort
default_reason abort = admin_abort

abbrev pub reason_or_default : Option FailureReason → CommandType → FailureReason
reason_or_default none type = default_reason type
reason_or_default (some r) type = r

abbrev pub is_fetched : DroneCommand → Bool
is_fetched c = elim c.status [ CommandStatus.fetched ↦ true | _ ↦ false ]

abbrev pub is_pending_command : DroneCommand → Bool
is_pending_command c = elim c.status [ CommandStatus.pending ↦ true | _ ↦ false ]

abbrev pub is_open_command : DroneCommand → Bool
is_open_command c = is_pending_command c || is_fetched c

abbrev pub append_command : List DroneCommand → DroneCommand → List DroneCommand
append_command [] c = c ∷ []
append_command (x ∷ xs) c = x ∷ append_command xs c

-- `droneCommand.create`, under the index that allows one open command a delivery.
unfoldable pub insert_command : DroneCommand → Action ⊤
insert_command c = do
  used ← gets (λ db. count (λ x. x.delivery_id == c.delivery_id && is_open_command x) db.commands)
  throw_if (leb 1 used) (unique_violation open_command)
  modify (λ db. record db { commands = append_command db.commands c })

-- `auditWithinTx`
abbrev pub CommandAudit : Type 0
CommandAudit = Option (DroneCommand → Action ⊤)

abbrev pub audit_command : CommandAudit → DroneCommand → Action ⊤
audit_command none c = pure tt
audit_command (some audit) c = audit c

unfoldable pub issue_statements : CommandAudit → DroneCommand → Action DroneCommand
unfolding insert_command
issue_statements audit c = insert_command c >> audit_command audit c >> pure c

abbrev pub report_pending : Result DroneCommand × Db → Result DroneCommand × Db
report_pending (ok c, db) = (ok c, db)
report_pending (err (AppError.unique_violation k), db) = (err command_already_pending, db)
report_pending (err e, db) = (err e, db)

unfoldable pub create_command : CommandAudit → DroneCommand → Action DroneCommand
unfolding issue_statements
create_command audit c db = report_pending (transaction (issue_statements audit c) db)

-- The command's id is fresh.
abbrev pub command_row :
    ℕ → Option ℕ → CommandType → Option FailureReason → Delivery → ℕ → ℕ → DroneCommand
command_row id admin_id type reason d drone_id now = record {
  id = id;
  delivery_id = d.id;
  drone_id = drone_id;
  type = type;
  reason = reason_or_default reason type;
  status = CommandStatus.pending;
  issued_by_user_id = admin_id;
  applied_transition = false;
  expires_at = now + command_ttl;
  fetched_at = none;
  acked_at = none;
  created_at = now;
}

abbrev pub push_created : DroneCommand → Action DroneCommand
push_created c = best_effort (emit (push_command c.id)) >> pure c

unfoldable pub create_and_push :
    ℕ
    → Option ℕ
    → CommandType
    → Option FailureReason
    → CommandAudit
    → Delivery
    → ℕ
    → Action DroneCommand
unfolding create_command
create_and_push id admin_id type reason audit d drone_id db =
    (create_command audit (command_row id admin_id type reason d drone_id db.now) >>= push_created)
      db

unfoldable pub check_limit : ℕ → Action ⊤
check_limit delivery_id = do
  total ← gets (λ db. count (λ (x : DroneCommand). x.delivery_id == delivery_id) db.commands)
  throw_if (leb max_commands total) command_limit_reached

unfoldable pub issue_for :
    ℕ
    → Option ℕ
    → CommandType
    → Option FailureReason
    → CommandAudit
    → Delivery
    → ℕ
    → Action DroneCommand
unfolding create_and_push check_limit
issue_for id admin_id type reason audit d drone_id =
    throw_if (not (includes (legal_statuses type) d.status)) command_illegal_for_status
    >> check_limit d.id
    >> create_and_push id admin_id type reason audit d drone_id

-- A delivery that is not live, or has no aircraft, takes no command.
unfoldable pub issue_on :
    ℕ
    → Option ℕ
    → CommandType
    → Option FailureReason
    → CommandAudit
    → Delivery
    → Action DroneCommand
unfolding issue_for
issue_on id admin_id type reason audit d =
    throw_if (not (is_live d.tracking_source)) command_live_only
    >> or_throw d.assigned_drone_id command_no_drone
    >>= issue_for id admin_id type reason audit d

unfoldable pub issue :
    ℕ → Option ℕ → ℕ → CommandType → Option FailureReason → CommandAudit → Action DroneCommand
unfolding issue_on
issue id admin_id delivery_id type reason audit = do
  found ← gets (λ db. find delivery_key delivery_id db.deliveries)
  d ← or_throw found delivery_not_found
  issue_on id admin_id type reason audit d

-- The delivery of the command is live and flown by this aircraft.
abbrev pub flies : ℕ → Option Delivery → Bool
flies drone_id none = false
flies drone_id (some d) = is_live d.tracking_source && d.assigned_drone_id ==? drone_id

-- A conditional update of one command: the number of rows that it matched.
unfoldable pub update_command : ℕ → (DroneCommand → Bool) → (DroneCommand → DroneCommand) → Action ℕ
update_command id guard change db = (
  ok (count (at command_key id guard) db.commands),
  record db { commands = update_many (at command_key id guard) change db.commands },
)

abbrev pub set_fetched : ℕ → DroneCommand → DroneCommand
set_fetched now c = record c { status = CommandStatus.fetched; fetched_at = some now }

-- A command that was pending is shown as fetched if it is that now.
abbrev pub view_of : DroneCommand → DroneCommand
view_of c = if is_pending_command c then record c { status = CommandStatus.fetched } else c

abbrev pub still_fetched : Option DroneCommand → Bool
still_fetched none = false
still_fetched (some c) = is_fetched c

unfoldable pub take_pending : DroneCommand → Action (Option DroneCommand)
unfolding update_command
take_pending c = do
  now ← gets (λ db. db.now)
  won ← update_command c.id is_pending_command (set_fetched now)
  fresh ← gets (λ db. find command_key c.id db.commands)
  if leb 1 won || still_fetched fresh then pure (some (view_of c)) else pure none

unfoldable pub fetch_found : ℕ → Option DroneCommand → Action (Option DroneCommand)
unfolding take_pending
fetch_found drone_id none = pure none
fetch_found drone_id (some c) = do
  d ← gets (λ db. find delivery_key c.delivery_id db.deliveries)
  let taken = take_pending c
  if not (flies drone_id d)
      then pure none
      else if is_pending_command c
      then taken
      else pure (some (view_of c))

unfoldable pub fetch_pending : ℕ → Action (Option DroneCommand)
unfolding fetch_found
fetch_pending drone_id = do
  found ← gets (λ db.
      find_first (λ c. c.drone_id == drone_id && (is_open_command c && ltb db.now c.expires_at))
        db.commands)
  fetch_found drone_id found

abbrev pub set_command_status : CommandStatus → DroneCommand → DroneCommand
set_command_status s c = record c { status = s }

abbrev pub claim_status : Bool → CommandStatus
claim_status true = CommandStatus.acked
claim_status false = CommandStatus.rejected

abbrev pub set_claimed : ℕ → Bool → DroneCommand → DroneCommand
set_claimed now accepted c = record c { status = claim_status accepted; acked_at = some now }

pub record AckResult : Type 0 where
  pub id : ℕ
  pub status : CommandStatus
  pub applied_transition : Bool

abbrev pub apply_command : DroneCommand → Action Bool
apply_command c = elim c.type [
  | return_to_base ↦ begin_return_to_base c.delivery_id c.reason
  | abort ↦ fail_exceptional c.delivery_id c.reason failable_statuses none
]

abbrev pub mark_applied : DroneCommand → DroneCommand
mark_applied c = record c { applied_transition = true }

-- Record what became of an accepted command.
unfoldable pub record_outcome : ℕ → Bool → Action AckResult
unfolding update_command
record_outcome id true =
    update_command id (λ c. true) mark_applied
    >> pure (record { id = id; status = CommandStatus.acked; applied_transition = true })
record_outcome id false =
    update_command id (λ c. true) (set_command_status CommandStatus.rejected)
    >> pure (record { id = id; status = CommandStatus.rejected; applied_transition = false })

unfoldable pub after_claim : DroneCommand → Bool → Action AckResult
unfolding record_outcome
after_claim c true = apply_command c >>= record_outcome c.id
after_claim c false =
    pure (record { id = c.id; status = CommandStatus.rejected; applied_transition = false })

unfoldable pub expire : ℕ → Action AckResult
unfolding update_command
expire id =
    update_command id is_open_command (set_command_status CommandStatus.expired)
    >> throw command_expired

unfoldable pub claim_ack : DroneCommand → Bool → Action AckResult
unfolding update_command after_claim
claim_ack c accepted = do
  now ← gets (λ db. db.now)
  won ← update_command c.id is_fetched (set_claimed now accepted)
  throw_if (won == 0) command_not_awaiting_ack
  after_claim c accepted

unfoldable pub ack : ℕ → ℕ → Bool → Action AckResult
unfolding expire claim_ack
ack command_id drone_id accepted = do
  found ← gets (λ db. find command_key command_id db.commands)
  c ← or_throw found command_not_found
  d ← gets (λ db. find delivery_key c.delivery_id db.deliveries)
  throw_if (not (c.drone_id == drone_id && flies drone_id d)) command_drone_not_assigned
  now ← gets (λ db. db.now)
  let expired = expire command_id
  let claimed = claim_ack c accepted
  if leb c.expires_at now then expired else claimed
