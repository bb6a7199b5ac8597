-- ===== src/Watchdog/Kept.antt =====
-- The tick of src/delivery-watchdog/delivery-watchdog.ts keeps what every driver of a flight keeps.
use drovery_backend.Base.{ℕ, Bool, true, false, List, [], ◌∷◌, refl, leb, filter, take, none, arith}
use drovery_backend.Base.Table.{count}
use drovery_backend.Store.{
  best_effort, Db, Delivery, DroneCommand, CommandStatus, watchdog_stuck_statuses, pure, when, ◌>>◌,
}
use drovery_backend.Store.Invariants.{Keeps, >>=-Keeps, when-Keeps}
use drovery_backend.Deliveries.{fail_exceptional}
use drovery_backend.Deliveries.Moves.{AreLive}
use drovery_backend.Commands.Driven.{IsDriven}
use drovery_backend.Deliveries.Operations.{fail_exceptional-Keeps}
use drovery_backend.Commands.{update_command, apply_command, set_command_status}
use drovery_backend.Commands.Open.{OpensNone, update-OneOpen}
use drovery_backend.Commands.Kept.{apply_command-Keeps, update_command-Keeps}
use drovery_backend.Watchdog.Defs.{
  Candidate, last_telemetry, is_before, watchdog_silence, watchdog_batch, reap_reason, reap_all,
  is_stale_command, expire_stale_commands, is_stranded, resolve, reconcile, reconcile_all,
  reconcile_stranded_acks, silent_deliveries, scan_and_reap,
}

pub stuck-AreLive : AreLive watchdog_stuck_statuses
stuck-AreLive = (refl, (refl, (refl, (refl, tt))))

resolve-OpensNone : (applied : Bool) → OpensNone (λ x. true) (resolve applied)
resolve-OpensNone true did c g o = o
resolve-OpensNone false did c g o = ground (arith, o)

module _ (P : Db → Type 0) (v : IsDriven P) where
  reap_all-Keeps : (now : ℕ) (cs : List Candidate) → Keeps P (reap_all now cs)
  unfolding reap_all
  reap_all-Keeps now [] db h = h
  reap_all-Keeps now (c ∷ cs) db h =
      >>=-Keeps P
        (when (is_before watchdog_silence now (last_telemetry c))
          (best_effort (fail_exceptional c.id (reap_reason c) watchdog_stuck_statuses none)))
        (λ _. reap_all now cs)
        (when-Keeps P (is_before watchdog_silence now (last_telemetry c)) _ (
          fail_exceptional-Keeps P v.stable none (λ _ db h. h) c.id (reap_reason c)
            watchdog_stuck_statuses stuck-AreLive))
        (λ _. reap_all-Keeps now cs) db h

  expire_stale_commands-Keeps : Keeps P expire_stale_commands
  unfolding expire_stale_commands
  expire_stale_commands-Keeps db h =
      when-Keeps P (leb 1 (count (is_stale_command db.now) db.commands)) _
        (λ db' h.
          v.orders db' _
            (update-OneOpen (is_stale_command db.now) (set_command_status CommandStatus.expired)
              db'.commands (λ did c g o. ground (arith, o)))
            h)
        db h

  reconcile-Keeps : (c : DroneCommand) → Keeps P (reconcile c)
  unfolding reconcile
  reconcile-Keeps c = >>=-Keeps P (apply_command c) _ (apply_command-Keeps P v c) (λ applied.
      >>=-Keeps P (update_command c.id (λ x. true) (resolve applied)) (λ _. pure tt)
        (update_command-Keeps P v c.id (λ x. true) (resolve applied) (resolve-OpensNone applied))
        (λ _ db h. h))

  reconcile_all-Keeps : (cs : List DroneCommand) → Keeps P (reconcile_all cs)
  unfolding reconcile_all
  reconcile_all-Keeps [] db h = h
  reconcile_all-Keeps (c ∷ cs) db h = reconcile_all-Keeps cs _ (reconcile-Keeps c db h)

  reconcile_stranded_acks-Keeps : Keeps P reconcile_stranded_acks
  unfolding reconcile_stranded_acks
  reconcile_stranded_acks-Keeps db =
      reconcile_all-Keeps (take watchdog_batch (filter (is_stranded db.now) db.commands)) db

  pub scan_and_reap-Keeps : (updated_at : Delivery → ℕ) → Keeps P (scan_and_reap updated_at)
  unfolding scan_and_reap
  scan_and_reap-Keeps updated_at db =
      >>=-Keeps P (reap_all db.now (silent_deliveries updated_at db))
        (λ _. expire_stale_commands >> reconcile_stranded_acks)
        (reap_all-Keeps db.now (silent_deliveries updated_at db))
        (λ _.
          >>=-Keeps P expire_stale_commands (λ _. reconcile_stranded_acks)
            expire_stale_commands-Keeps (λ _. reconcile_stranded_acks-Keeps))
        db
