-- ===== src/Payments/Webhook.antt =====
-- The webhooks of src/payments/payments.service.ts: each event counts once, and a payment's status
-- only advances.
use drovery_backend.Base.{
  ℕ, Bool, true, Option, none, some, List, [], ◌∷◌, ◌≡◌, refl, ◌||◌, ◌==◌, ltb, arith, Bool-cases,
  inl, inr, Option-cases,
}
use drovery_backend.Base.Table.{update_many}
use drovery_backend.Store.{
  Db, Payment, PaymentStatus, Result, ok, err, unique_violation, transaction, keep_or_roll_back,
}
use drovery_backend.Payments.Defs.{
  payment_index, payment_in, StripeEvent, StripeEventType, webhook_status, advance_from, duplicate,
  may_advance, advance_to, apply_status, is_member, record_and_apply, report_outcome,
  handle_for_intent, handle_webhook_event,
}

-- Where a payment may still go: a failed payment may complete, a completed one only be refunded.
abbrev pub payment_rank : PaymentStatus → ℕ
payment_rank PaymentStatus.pending = 0
payment_rank PaymentStatus.processing = 1
payment_rank PaymentStatus.failed = 2
payment_rank PaymentStatus.completed = 3
payment_rank PaymentStatus.refunded = 4

abbrev pub is_at_or_past : PaymentStatus → PaymentStatus → Bool
is_at_or_past a b = payment_index a == payment_index b || ltb (payment_rank a) (payment_rank b)

-- The two tables have the same payments in the same order, each with its status or a later one.
abbrev pub PaymentsAdvance : List Payment → List Payment → Type 0
PaymentsAdvance [] [] = Unit
PaymentsAdvance (p ∷ ps) (q ∷ qs) =
    (is_at_or_past p.status q.status ≡ true)
    × (q.delivery_id ≡ p.delivery_id)
    × (q.amount ≡ p.amount)
    × PaymentsAdvance ps qs
PaymentsAdvance _ _ = ⊥

PaymentsAdvance-refl : (ps : List Payment) → PaymentsAdvance ps ps
PaymentsAdvance-refl [] = tt
PaymentsAdvance-refl (p ∷ ps) = (ground arith, refl, refl, PaymentsAdvance-refl ps)

advance_moves :
    (target s : PaymentStatus)
    → payment_in (advance_from target) s ≡ true
    → is_at_or_past s target ≡ true
advance_moves target s h = ground arith

apply-advances :
    (intent : ℕ) (target : PaymentStatus) (ps : List Payment)
    → PaymentsAdvance ps (update_many (may_advance intent target) (advance_to target) ps)
apply-advances intent target [] = tt
apply-advances intent target (p ∷ ps) = elim (Bool-cases (may_advance intent target p)) [
  | inl e ↦
      rw e
        (advance_moves target p.status (ground arith), refl, refl, apply-advances intent target ps)
  | inr e ↦ rw e (ground arith, refl, refl, apply-advances intent target ps)
]

apply_status-advances :
    (intent : ℕ) (t : Option PaymentStatus) (db : Db)
    → PaymentsAdvance db.payments (apply_status intent t db).1.payments
unfolding apply_status
apply_status-advances intent none db = PaymentsAdvance-refl db.payments
apply_status-advances intent (some t) db = apply-advances intent t db.payments

reported : (o : Result ℕ × Db) → (report_outcome o).1 ≡ o.1
reported (ok n, db) = refl
reported (err (unique_violation c), db) = refl
reported (err _, db) = ground arith

kept :
    (before : Db) (intent : ℕ) (t : Option PaymentStatus) (db : Db)
    → (report_outcome (keep_or_roll_back before (apply_status intent t db))).1
      ≡ (apply_status intent t db).1
unfolding apply_status
kept before intent none db = refl
kept before intent (some t) db = refl

apply-webhook_events :
    (intent : ℕ) (t : Option PaymentStatus) (db : Db)
    → (apply_status intent t db).1.webhook_events ≡ db.webhook_events
unfolding apply_status
apply-webhook_events intent none db = refl
apply-webhook_events intent (some t) db = refl

handle-advances :
    (eid : Option ℕ) (intent : ℕ) (ty : StripeEventType) (db : Db)
    → PaymentsAdvance db.payments (handle_for_intent eid intent ty db).1.payments
unfolding handle_for_intent record_and_apply
handle-advances none intent ty db =
    rw (reported (apply_status intent (webhook_status ty) db))
      (apply_status-advances intent (webhook_status ty) db)
handle-advances (some e) intent ty db = elim (Bool-cases (is_member e db.webhook_events)) [
  | inl seen ↦ rw seen (PaymentsAdvance-refl db.payments)
  | inr new ↦
      let db' = record db { webhook_events = e ∷ db.webhook_events } in
      rw (new, kept db intent (webhook_status ty) db')
        (apply_status-advances intent (webhook_status ty) db')
]

-- A webhook, whatever its type, order or repetition, moves each payment forward or leaves it.
pub webhook-PaymentsAdvance :
    (event : StripeEvent) (db : Db)
    → PaymentsAdvance db.payments (handle_webhook_event event db).1.payments
unfolding handle_webhook_event
webhook-PaymentsAdvance event db = elim (Option-cases event.intent_id) [
  | inl e ↦ rw e (PaymentsAdvance-refl db.payments)
  | inr (intent, e) ↦ rw e (handle-advances event.id intent event.type db)
]

seen_again :
    (e intent : ℕ) (ty : StripeEventType) (db : Db)
    → is_member e db.webhook_events ≡ true
    → report_outcome (transaction (record_and_apply e intent ty) db) ≡ (ok duplicate, db)
unfolding record_and_apply
seen_again e intent ty db h = rw h refl

remembered :
    (e intent : ℕ) (ty : StripeEventType) (db : Db)
    → is_member e (report_outcome (transaction (record_and_apply e intent ty) db)).1.webhook_events
      ≡ true
unfolding record_and_apply
remembered e intent ty db = elim (Bool-cases (is_member e db.webhook_events)) [
  | inl seen ↦ rw (seen, seen) refl
  | inr new ↦
      let db' = record db { webhook_events = e ∷ db.webhook_events } in
      rw
        (
          new,
          kept db intent (webhook_status ty) db',
          apply-webhook_events intent (webhook_status ty) db',
        )
        (ground arith)
]

-- An event with an id and a payment intent that is delivered again is reported as a duplicate, and
-- changes nothing.
pub webhook_once :
    (event : StripeEvent) (db : Db) (eid intent : ℕ)
    → event.id ≡ some eid
    → event.intent_id ≡ some intent
    → handle_webhook_event event (handle_webhook_event event db).1
      ≡ (ok duplicate, (handle_webhook_event event db).1)
unfolding handle_webhook_event handle_for_intent record_and_apply
webhook_once event db eid intent h k =
    rw (k, h)
      (seen_again eid intent event.type
        (report_outcome (transaction (record_and_apply eid intent event.type) db)).1
        (remembered eid intent event.type db))
