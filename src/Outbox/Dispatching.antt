-- ===== src/Outbox/Dispatching.antt =====
-- What a tick of src/outbox/outbox.service.ts keeps: the wallet's books, and the bound on retries.
use drovery_backend.Base.{
  ℕ, ◌+◌, ◌≤◌, true, not, Option, none, some, List, [], ◌∷◌, ◌≡◌, ◌==◌, arith, All, take, filter,
}
use drovery_backend.Base.Table.{find, update_many, at, All-update_many}
use drovery_backend.Store.{
  Db, OutboxEvent, event_key, Result, ok, err, ⊤, throw, gets, when, transaction, ◌>>=◌, ◌>>◌,
  unique_violation, outbox_no_handler,
}
use drovery_backend.Store.Invariants.{
  Keeps, KeepsOk, AfterOk, Keeps-ok, >>=-KeepsOk, >>=-Keeps, ite_KeepsOk, when-Keeps,
  transaction-Keeps,
}
use drovery_backend.Wallet.{maybe_grant_referral_reward_within_tx}
use drovery_backend.Wallet.Reconcile.{IsReconciled, reward-IsReconciled}
use drovery_backend.Wallet.Frame.{reward-frame}
use drovery_backend.Outbox.Defs.{
  max_recovery_attempts, is_pending_event, claim_event, take_claim, mark_processed, set_processed,
  reward_payload, apply_handler, apply_and_mark, settle, apply_claimed, process_found, process_one,
  reap_stale_claims, requeue_recoverable_failed, process_all, dispatch_due, is_abandoned_claim,
  is_exhausted_claim, is_recoverable, give_up, requeue, outbox_batch,
}

-- Attempts stop at the recovery cap: an event that may still be claimed is below it.
abbrev pub IsWithinAttempts : OutboxEvent → Type 0
IsWithinAttempts e =
    (e.attempts ≤ max_recovery_attempts)
    × (is_pending_event e ≡ true → e.attempts + 1 ≤ max_recovery_attempts)

abbrev pub IsBounded : Db → Type 0
IsBounded db = All IsWithinAttempts db.outbox_events

-- The books of the wallet and the bound on attempts.
pub record IsSound (db : Db) : Type 0 where
  pub reconciled : IsReconciled db
  pub bounded : IsBounded db

mark-IsSound : (id : ℕ) → Keeps IsSound (mark_processed id)
unfolding mark_processed
mark-IsSound id db h = record {
  reconciled = record { keyed = h.reconciled.keyed; accounted = h.reconciled.accounted };
  bounded =
      All-update_many IsWithinAttempts (at event_key id (λ e. true)) (set_processed db.now)
        db.outbox_events (λ e b p. (b.0, λ q. cc)) h.bounded;
}

claim-IsSound : (id : ℕ) → Keeps IsSound (claim_event id)
unfolding claim_event
claim-IsSound id db h = record {
  reconciled = record { keyed = h.reconciled.keyed; accounted = h.reconciled.accounted };
  bounded =
      All-update_many IsWithinAttempts (at event_key id is_pending_event) (take_claim db.now)
        db.outbox_events (λ e b p. (b.1 (ground arith), λ q. cc)) h.bounded;
}

AfterOk-both :
    {A : Type 0} (o : Result A × Db)
    → AfterOk IsReconciled o
    → AfterOk IsBounded o
    → AfterOk IsSound o
AfterOk-both (ok a, db) h k = record { reconciled = h; bounded = k }
AfterOk-both (err e, db) h k = tt

reward-IsSound : (uid : ℕ) → KeepsOk IsSound (maybe_grant_referral_reward_within_tx uid)
reward-IsSound uid db h =
    AfterOk-both (maybe_grant_referral_reward_within_tx uid db)
      (reward-IsReconciled uid db h.reconciled)
      (reward-frame (λ r. All IsWithinAttempts r.outbox_events) uid db h.bounded)

payload-IsSound : (o : Option ℕ) → KeepsOk IsSound (reward_payload o)
payload-IsSound none db h = tt
payload-IsSound (some uid) db h = reward-IsSound uid db h

handler-IsSound : (e : OutboxEvent) → KeepsOk IsSound (apply_handler e)
unfolding apply_handler
handler-IsSound e =
    ite_KeepsOk IsSound e.is_referral_reward (reward_payload e.referee_user_id)
      (throw outbox_no_handler) (payload-IsSound e.referee_user_id) (λ db h. tt)

apply_and_mark-IsSound : (id : ℕ) (e : OutboxEvent) → KeepsOk IsSound (apply_and_mark id e)
unfolding apply_and_mark
apply_and_mark-IsSound id e =
    >>=-KeepsOk IsSound (apply_handler e) (λ _. mark_processed id) (handler-IsSound e)
      (λ _. mark-Ok)
  where
    mark-Ok : KeepsOk IsSound (mark_processed id)
    mark-Ok = Keeps-ok IsSound (mark_processed id) (mark-IsSound id)

settle-IsSound : (id : ℕ) (o : Result ⊤ × Db) → IsSound o.1 → IsSound (settle id o).1
settle-IsSound id (ok a, db) h = h
settle-IsSound id (err (unique_violation c), db) h = mark-IsSound id db h
settle-IsSound id (err _, db) h = h

apply_claimed-IsSound : (id : ℕ) (o : Option OutboxEvent) → Keeps IsSound (apply_claimed id o)
unfolding apply_claimed
apply_claimed-IsSound id none db h = h
apply_claimed-IsSound id (some e) db h =
    settle-IsSound id (transaction (apply_and_mark id e) db)
      (transaction-Keeps IsSound (apply_and_mark id e) (apply_and_mark-IsSound id e) db h)

process_found-IsSound : (id : ℕ) → Keeps IsSound (process_found id)
unfolding process_found
process_found-IsSound id db h = apply_claimed-IsSound id (find event_key id db.outbox_events) db h

process_one-IsSound : (id : ℕ) → Keeps IsSound (process_one id)
unfolding process_one
process_one-IsSound id =
    >>=-Keeps IsSound (claim_event id) (λ n. when (not (n == 0)) (process_found id))
      (claim-IsSound id)
      (λ n. when-Keeps IsSound (not (n == 0)) (process_found id) (process_found-IsSound id))

process_all-IsSound : (es : List OutboxEvent) → Keeps IsSound (process_all es)
process_all-IsSound [] db h = h
process_all-IsSound (e ∷ es) db h =
    >>=-Keeps IsSound (process_one e.id) (λ _. process_all es) (process_one-IsSound e.id)
      (λ _. process_all-IsSound es) db h

reap-IsSound : Keeps IsSound reap_stale_claims
unfolding reap_stale_claims
reap-IsSound db h = record {
  reconciled = record { keyed = h.reconciled.keyed; accounted = h.reconciled.accounted };
  bounded =
      All-update_many IsWithinAttempts (is_abandoned_claim db.now) requeue
        (update_many (is_exhausted_claim db.now) give_up db.outbox_events)
        (λ e b p. (b.0, λ q. ground arith))
        (All-update_many IsWithinAttempts (is_exhausted_claim db.now) give_up db.outbox_events
          (λ e b p. (b.0, λ q. cc)) h.bounded);
}

recover-IsSound : Keeps IsSound requeue_recoverable_failed
unfolding requeue_recoverable_failed
recover-IsSound db h = record {
  reconciled = record { keyed = h.reconciled.keyed; accounted = h.reconciled.accounted };
  bounded =
      All-update_many IsWithinAttempts (is_recoverable db.now) requeue db.outbox_events
        (λ e b p. (b.0, λ q. ground arith)) h.bounded;
}

-- A tick keeps the wallet's books exact, whatever handler fails, and no event is ever tried more
-- often than the recovery cap.
pub dispatch_due-IsSound : Keeps IsSound dispatch_due
unfolding dispatch_due
dispatch_due-IsSound =
    >>=-Keeps IsSound (reap_stale_claims >> requeue_recoverable_failed)
      (λ _.
        gets (λ db. take outbox_batch (filter is_pending_event db.outbox_events)) >>= process_all)
      (>>=-Keeps IsSound reap_stale_claims (λ _. requeue_recoverable_failed) reap-IsSound
        (λ _. recover-IsSound))
      (λ _ db.
        process_all-IsSound (take outbox_batch (filter is_pending_event db.outbox_events)) db)
