-- ===== src/Outbox/Reaping.antt =====
-- What the reaper of src/outbox/outbox.service.ts makes of each event.
use drovery_backend.Base.{
  ℕ, ◌-◌, Bool, none, List, [], ◌∷◌, ◌≡◌, refl, ◌&&◌, ltb, arith, Bool-cases, inl, inr,
  if◌then◌else◌, map,
}
use drovery_backend.Base.Table.{count, update_many}
use drovery_backend.Store.{Db, OutboxEvent, OutboxStatus, ok}
use drovery_backend.Outbox.Defs.{
  is_processing, claimed_before, claim_lease, is_abandoned_claim, is_exhausted_claim, give_up,
  requeue, reap_stale_claims,
}

-- A claim that is older than the lease: its worker is taken for dead.
abbrev pub is_stale_claim : ℕ → OutboxEvent → Bool
is_stale_claim now e = is_processing e && claimed_before (now - claim_lease) e

-- What one pass over the table makes of an event: a stale claim waits again, without a claim, while
-- it has been tried fewer than five times, and has failed after that; any other event stays.
abbrev pub reaped : ℕ → OutboxEvent → OutboxEvent
reaped now e =
    if is_stale_claim now e
    then (if ltb e.attempts 5
        then record e { status = OutboxStatus.pending; claimed_at = none }
        else record e { status = OutboxStatus.failed })
    else e

two_updates :
    (now : ℕ) (xs : List OutboxEvent)
    → update_many (is_abandoned_claim now) requeue (update_many (is_exhausted_claim now) give_up xs)
      ≡ map (reaped now) xs
two_updates now [] = refl
two_updates now (e ∷ es) = elim (Bool-cases (is_stale_claim now e)) [
  | inr fresh ↦ ground (arith, two_updates now es)
  | inl stale ↦ elim (Bool-cases (ltb e.attempts 5)) [
    | inl few ↦ ground (arith, two_updates now es)
    | inr spent ↦ ground (arith, two_updates now es)
  ]
]

no_stale : (now : ℕ) (xs : List OutboxEvent) → count (is_stale_claim now) (map (reaped now) xs) ≡ 0
no_stale now [] = refl
no_stale now (e ∷ es) = ground (arith, no_stale now es)

-- The reaper's two updates, one after the other, are one pass over the table: each claim older than
-- the lease goes back to the queue, or has failed once it was tried five times, every other event
-- and the rest of the database stay, and no stale claim is left.
pub reap_lem :
    (db : Db)
    → (reap_stale_claims db
        ≡ (ok tt, record db { outbox_events = map (reaped db.now) db.outbox_events }))
      × (count (is_stale_claim db.now) (reap_stale_claims db).1.outbox_events ≡ 0)
unfolding reap_stale_claims
reap_lem db = rw (two_updates db.now db.outbox_events) (refl, no_stale db.now db.outbox_events)
