-- ===== src/Outbox/Defs.antt =====
-- The producer and the dispatcher of src/outbox/outbox.service.ts, with the defaults of
-- src/outbox/outbox.constants.ts. The table is in the order of `createdAt`; `lastError` is not
-- kept.
use drovery_backend.Base.{
  ℕ, ◌+◌, ◌-◌, Bool, true, false, not, Option, none, some, List, [], ◌∷◌, ◌&&◌, ◌==◌, leb, ltb,
  take, filter, if◌then◌else◌,
}
use drovery_backend.Base.Table.{find, count, update_many, at}
use drovery_backend.Store.{
  Db, OutboxEvent, event_key, OutboxStatus, Result, ok, err, Action, AppError, unique_violation,
  outbox_idempotency_key, outbox_missing_referee, outbox_no_handler, ⊤, pure, throw, gets, modify,
  throw_if, when, transaction, ◌>>=◌, ◌>>◌,
}
use drovery_backend.Wallet.{maybe_grant_referral_reward_within_tx}

abbrev pub outbox_batch : ℕ
outbox_batch = 100

abbrev pub max_attempts : ℕ
max_attempts = 5

abbrev pub claim_lease : ℕ
claim_lease = 60000

abbrev pub recovery_backoff : ℕ
recovery_backoff = 1800000

abbrev pub max_recovery_attempts : ℕ
max_recovery_attempts = 50

abbrev pub is_pending_event : OutboxEvent → Bool
is_pending_event e = elim e.status [ OutboxStatus.pending ↦ true | _ ↦ false ]

abbrev pub is_processing : OutboxEvent → Bool
is_processing e = elim e.status [ OutboxStatus.processing ↦ true | _ ↦ false ]

abbrev pub is_failed : OutboxEvent → Bool
is_failed e = elim e.status [ OutboxStatus.failed ↦ true | _ ↦ false ]

-- `claimedAt: { lt: cutoff }`, which no null meets.
abbrev pub claimed_before : ℕ → OutboxEvent → Bool
claimed_before cutoff e = elim e.claimed_at [ none ↦ false | some t ↦ ltb t cutoff ]

abbrev pub append_event : List OutboxEvent → OutboxEvent → List OutboxEvent
append_event [] e = e ∷ []
append_event (x ∷ xs) e = x ∷ append_event xs e

-- `enqueueWithinTx`, under the unique index on the idempotency key.
unfoldable pub enqueue_within_tx : OutboxEvent → Action ⊤
enqueue_within_tx event = do
  uses ← gets (λ db.
      count (λ (e : OutboxEvent). e.idempotency_key == event.idempotency_key) db.outbox_events)
  throw_if (leb 1 uses) (unique_violation outbox_idempotency_key)
  modify (λ db. record db { outbox_events = append_event db.outbox_events event })

abbrev pub take_claim : ℕ → OutboxEvent → OutboxEvent
take_claim now e = record e {
  status = OutboxStatus.processing;
  attempts = e.attempts + 1;
  claimed_at = some now;
}

unfoldable pub claim_event : ℕ → Action ℕ
claim_event id db = (
  ok (count (at event_key id is_pending_event) db.outbox_events),
  record db {
    outbox_events =
        update_many (at event_key id is_pending_event) (take_claim db.now) db.outbox_events;
  },
)

abbrev pub set_processed : ℕ → OutboxEvent → OutboxEvent
set_processed now e = record e { status = OutboxStatus.processed; processed_at = some now }

unfoldable pub mark_processed : ℕ → Action ⊤
mark_processed id = modify (λ db. record db {
  outbox_events = update_many (at event_key id (λ e. true)) (set_processed db.now) db.outbox_events;
})

abbrev pub reward_payload : Option ℕ → Action ⊤
reward_payload none = throw outbox_missing_referee
reward_payload (some referee) = maybe_grant_referral_reward_within_tx referee

unfoldable pub apply_handler : OutboxEvent → Action ⊤
apply_handler event =
    if event.is_referral_reward
    then reward_payload event.referee_user_id
    else throw outbox_no_handler

unfoldable pub apply_and_mark : ℕ → OutboxEvent → Action ⊤
unfolding apply_handler mark_processed
apply_and_mark id event = apply_handler event >> mark_processed id

-- The `catch`: a unique violation means that the effect was applied before; any other error leaves
-- the event to the reaper.
abbrev pub settle : ℕ → Result ⊤ × Db → Result ⊤ × Db
settle id (ok a, db) = (ok a, db)
settle id (err (AppError.unique_violation c), db) = mark_processed id db
settle id (err e, db) = (ok tt, db)

unfoldable pub apply_claimed : ℕ → Option OutboxEvent → Action ⊤
unfolding apply_and_mark
apply_claimed id none db = (ok tt, db)
apply_claimed id (some event) db = settle id (transaction (apply_and_mark id event) db)

unfoldable pub process_found : ℕ → Action ⊤
unfolding apply_claimed
process_found id = do
  event ← gets (λ db. find event_key id db.outbox_events)
  apply_claimed id event

unfoldable pub process_one : ℕ → Action ⊤
unfolding claim_event process_found
process_one id = do claimed ← claim_event id; when (not (claimed == 0)) (process_found id)

abbrev pub is_exhausted_claim : ℕ → OutboxEvent → Bool
is_exhausted_claim now e =
    is_processing e && (claimed_before (now - claim_lease) e && leb max_attempts e.attempts)

abbrev pub is_abandoned_claim : ℕ → OutboxEvent → Bool
is_abandoned_claim now e =
    is_processing e && (claimed_before (now - claim_lease) e && ltb e.attempts max_attempts)

abbrev pub give_up : OutboxEvent → OutboxEvent
give_up e = record e { status = OutboxStatus.failed }

abbrev pub requeue : OutboxEvent → OutboxEvent
requeue e = record e { status = OutboxStatus.pending; claimed_at = none }

unfoldable pub reap_stale_claims : Action ⊤
reap_stale_claims = modify (λ db. record db {
  outbox_events =
      update_many (is_abandoned_claim db.now) requeue
        (update_many (is_exhausted_claim db.now) give_up db.outbox_events);
})

abbrev pub is_recoverable : ℕ → OutboxEvent → Bool
is_recoverable now e =
    is_failed e
    && (ltb e.attempts max_recovery_attempts && claimed_before (now - recovery_backoff) e)

unfoldable pub requeue_recoverable_failed : Action ⊤
requeue_recoverable_failed = modify (λ db. record db {
  outbox_events = update_many (is_recoverable db.now) requeue db.outbox_events;
})

abbrev pub process_all : List OutboxEvent → Action ⊤
process_all [] = pure tt
process_all (e ∷ es) = process_one e.id >> process_all es

-- One tick of the dispatcher.
unfoldable pub dispatch_due : Action ⊤
unfolding process_one reap_stale_claims requeue_recoverable_failed
dispatch_due = do
  reap_stale_claims
  requeue_recoverable_failed
  due ← gets (λ db. take outbox_batch (filter is_pending_event db.outbox_events))
  process_all due
