-- ===== src/Watchdog/Defs.antt =====
-- `scanAndReap`, `expireStaleCommands` and `reconcileStrandedAcks` of
-- src/delivery-watchdog/delivery-watchdog.ts, with the limits of watchdog.constants.ts and
-- src/deliveries/commands/command.constants.ts. The column `updatedAt` of a delivery, which the
-- database client keeps, is a parameter.
use drovery_backend.Base.{
  ℕ, ◌+◌, Bool, true, false, not, Option, none, some, List, [], ◌∷◌, ◌&&◌, ◌||◌, ◌==◌, leb, ltb,
  get_or, filter, take, map,
}
use drovery_backend.Base.Table.{find_first, count, update_many}
use drovery_backend.Store.{
  Db, Delivery, DeliveryStatus, DroneCommand, CommandStatus, FailureReason, mechanical, includes,
  is_live, watchdog_stuck_statuses, Action, ⊤, pure, gets, modify, when, best_effort, ◌>>=◌, ◌>>◌,
}
use drovery_backend.Dispatch.{sort_by}
use drovery_backend.Deliveries.{fail_exceptional}
use drovery_backend.Commands.{
  is_open_command, update_command, set_command_status, mark_applied, apply_command,
}
use drovery_backend.Tracking.{is_tracking_of}

abbrev pub watchdog_silence : ℕ
watchdog_silence = 600000

abbrev pub watchdog_min_age : ℕ
watchdog_min_age = watchdog_silence

abbrev pub watchdog_batch : ℕ
watchdog_batch = 200

abbrev pub command_reconcile_grace : ℕ
command_reconcile_grace = 120000

abbrev pub tracked_at : ℕ → Db → Option ℕ
tracked_at id db = elim (find_first (is_tracking_of id) db.tracking) [
  | none ↦ none
  | some t ↦ some t.updated_at
]

-- A row that the scan has read.
pub record Candidate : Type 0 where
  pub id : ℕ
  pub status : DeliveryStatus
  pub failure_reason : Option FailureReason
  pub updated_at : ℕ
  pub tracked : Option ℕ

-- The last telemetry of any kind, or, without any, the last write of the row.
abbrev pub last_telemetry : Candidate → ℕ
last_telemetry c = get_or c.tracked c.updated_at

-- `t < now - span`
abbrev pub is_before : ℕ → ℕ → ℕ → Bool
is_before span now t = ltb (t + span) now

-- Rows that were tracked come first, the longest silent first.
abbrev pub tracked_order : Option ℕ → Option ℕ → Bool
tracked_order none b = false
tracked_order (some a) none = true
tracked_order (some a) (some b) = ltb a b

abbrev pub same_tracked : Option ℕ → Option ℕ → Bool
same_tracked none none = true
same_tracked (some a) (some b) = a == b
same_tracked _ _ = false

abbrev pub candidate_order : Candidate → Candidate → Bool
candidate_order a b =
    tracked_order a.tracked b.tracked
    || (same_tracked a.tracked b.tracked && leb a.updated_at b.updated_at)

abbrev pub reap_reason : Candidate → FailureReason
reap_reason c = get_or c.failure_reason mechanical

-- The loop over the rows, with the time at which the scan began.
unfoldable pub reap_all : ℕ → List Candidate → Action ⊤
reap_all now [] = pure tt
reap_all now (c ∷ cs) =
    when (is_before watchdog_silence now (last_telemetry c))
      (best_effort (fail_exceptional c.id (reap_reason c) watchdog_stuck_statuses none))
    >> reap_all now cs

abbrev pub is_stale_command : ℕ → DroneCommand → Bool
is_stale_command now c = is_open_command c && ltb c.expires_at now

unfoldable pub expire_stale_commands : Action ⊤
expire_stale_commands = do
  now ← gets (λ db. db.now)
  stale ← gets (λ db. count (is_stale_command now) db.commands)
  when (leb 1 stale) (
      modify (λ db. record db {
        commands =
            update_many (is_stale_command now) (set_command_status CommandStatus.expired)
              db.commands;
      }))

abbrev pub is_acked : DroneCommand → Bool
is_acked c = elim c.status [ CommandStatus.acked ↦ true | _ ↦ false ]

abbrev pub acked_before : ℕ → Option ℕ → Bool
acked_before now none = false
acked_before now (some t) = is_before command_reconcile_grace now t

-- Acked, and the transition did not land.
abbrev pub is_stranded : ℕ → DroneCommand → Bool
is_stranded now c = is_acked c && (not c.applied_transition && acked_before now c.acked_at)

abbrev pub resolve : Bool → DroneCommand → DroneCommand
resolve true c = mark_applied c
resolve false c = set_command_status CommandStatus.rejected c

-- Drive the operator's choice again, and record what became of it.
unfoldable pub reconcile : DroneCommand → Action ⊤
reconcile c =
    apply_command c >>= λ applied. update_command c.id (λ x. true) (resolve applied) >> pure tt

unfoldable pub reconcile_all : List DroneCommand → Action ⊤
unfolding reconcile
reconcile_all [] = pure tt
reconcile_all (c ∷ cs) = best_effort (reconcile c) >> reconcile_all cs

unfoldable pub reconcile_stranded_acks : Action ⊤
unfolding reconcile_all
reconcile_stranded_acks = do
  now ← gets (λ db. db.now)
  stranded ← gets (λ db. take watchdog_batch (filter (is_stranded now) db.commands))
  reconcile_all stranded

module _ (updated_at : Delivery → ℕ) where
  abbrev pub candidate_of : Db → Delivery → Candidate
  candidate_of db d = record {
    id = d.id;
    status = d.status;
    failure_reason = d.failure_reason;
    updated_at = updated_at d;
    tracked = tracked_at d.id db;
  }

  -- The query's `where`.
  abbrev pub is_silent : Db → Delivery → Bool
  is_silent db d =
      includes watchdog_stuck_statuses d.status
      && (is_live d.tracking_source
          && (is_before watchdog_min_age db.now d.created_at
              && is_before watchdog_silence db.now (last_telemetry (candidate_of db d))))

  unfoldable pub silent_deliveries : Db → List Candidate
  silent_deliveries db =
      take watchdog_batch
        (sort_by candidate_order (map (candidate_of db) (filter (is_silent db) db.deliveries)))

  unfoldable pub scan_and_reap : Action ⊤
  unfolding reap_all silent_deliveries expire_stale_commands reconcile_stranded_acks
  scan_and_reap = do
    now ← gets (λ db. db.now)
    candidates ← gets silent_deliveries
    reap_all now candidates
    expire_stale_commands
    reconcile_stranded_acks
