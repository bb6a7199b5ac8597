-- ===== src/Payments/Defs.antt =====
-- The delivery's payment and the webhook handler of src/payments/payments.service.ts. The payment
-- intent that Stripe returns is a parameter.
use drovery_backend.Base.{ℕ, Bool, false, Option, none, some, List, [], ◌∷◌, ◌&&◌, ◌||◌, ◌==◌}
use drovery_backend.Base.Table.{find, count, update_many}
use drovery_backend.Store.{
  Db, Payment, payment_key, PaymentStatus, Result, ok, err, Action, AppError, unique_violation,
  webhook_event_id, ⊤, pure, gets, modify, throw_if, transaction, ◌>>=◌, ◌>>◌,
}

abbrev pub payment_index : PaymentStatus → ℕ
payment_index PaymentStatus.pending = 0
payment_index PaymentStatus.processing = 1
payment_index PaymentStatus.completed = 2
payment_index PaymentStatus.failed = 3
payment_index PaymentStatus.refunded = 4

abbrev pub payment_in : List PaymentStatus → PaymentStatus → Bool
payment_in [] s = false
payment_in (x ∷ xs) s = payment_index x == payment_index s || payment_in xs s

-- The type of a Stripe event; `other_event` has no status.
pub data StripeEventType : Type 0 where
  intent_succeeded intent_payment_failed intent_processing intent_canceled other_event :
      StripeEventType

abbrev pub webhook_status : StripeEventType → Option PaymentStatus
webhook_status intent_succeeded = some PaymentStatus.completed
webhook_status intent_payment_failed = some PaymentStatus.failed
webhook_status intent_processing = some PaymentStatus.processing
webhook_status intent_canceled = some PaymentStatus.failed
webhook_status other_event = none

-- The statuses that a webhook may move a payment from.
abbrev pub advance_from : PaymentStatus → List PaymentStatus
advance_from PaymentStatus.pending = []
advance_from PaymentStatus.processing = PaymentStatus.pending ∷ []
advance_from PaymentStatus.completed =
    PaymentStatus.pending ∷ PaymentStatus.processing ∷ PaymentStatus.failed ∷ []
advance_from PaymentStatus.failed = PaymentStatus.pending ∷ PaymentStatus.processing ∷ []
advance_from PaymentStatus.refunded = []

pub data IntentStatus : Type 0 where
  succeeded processing canceled other_status : IntentStatus

abbrev pub map_intent_status : IntentStatus → PaymentStatus
map_intent_status succeeded = PaymentStatus.completed
map_intent_status processing = PaymentStatus.processing
map_intent_status canceled = PaymentStatus.failed
map_intent_status other_status = PaymentStatus.pending

-- What `stripe.createPaymentIntent` returned.
pub record Intent : Type 0 where
  pub id : ℕ
  pub status : IntentStatus

abbrev pub payment_of : ℕ → ℕ → Intent → Payment
payment_of delivery_id amount intent = record {
  delivery_id = delivery_id;
  stripe_payment_intent_id = intent.id;
  amount = amount;
  status = map_intent_status intent.status;
}

-- A delivery that has a payment keeps it. A failed Stripe call is an error that its caller catches.
abbrev pub pay_once : ℕ → ℕ → Result Intent → Option Payment → Action ⊤
pay_once delivery_id amount intent (some existing) = pure tt
pay_once delivery_id amount (err e) none = λ db. (err e, db)
pay_once delivery_id amount (ok i) none =
    modify (λ db. record db { payments = payment_of delivery_id amount i ∷ db.payments })

unfoldable pub create_delivery_payment : ℕ → ℕ → Result Intent → Action ⊤
create_delivery_payment delivery_id amount intent = do
  existing ← gets (λ db. find payment_key delivery_id db.payments)
  pay_once delivery_id amount intent existing

pub record StripeEvent : Type 0 where
  pub id : Option ℕ
  pub type : StripeEventType
  pub intent_id : Option ℕ

pub data WebhookOutcome : Type 0 where
  received duplicate : WebhookOutcome

abbrev pub may_advance : ℕ → PaymentStatus → Payment → Bool
may_advance intent_id target p =
    p.stripe_payment_intent_id == intent_id && payment_in (advance_from target) p.status

abbrev pub advance_to : PaymentStatus → Payment → Payment
advance_to target p = record p { status = target }

-- `applyStatus`: the number of rows that moved.
unfoldable pub apply_status : ℕ → Option PaymentStatus → Action ℕ
apply_status intent_id none db = (ok 0, db)
apply_status intent_id (some target) db = (
  ok (count (may_advance intent_id target) db.payments),
  record db {
    payments = update_many (may_advance intent_id target) (advance_to target) db.payments;
  },
)

abbrev pub is_member : ℕ → List ℕ → Bool
is_member x [] = false
is_member x (y ∷ ys) = x == y || is_member x ys

-- The statements of the transaction: the id's primary key stops an event that was seen before.
unfoldable pub record_and_apply : ℕ → ℕ → StripeEventType → Action ℕ
unfolding apply_status
record_and_apply event_id intent_id type = do
  seen ← gets (λ db. is_member event_id db.webhook_events)
  throw_if seen (unique_violation webhook_event_id)
  modify (λ db. record db { webhook_events = event_id ∷ db.webhook_events })
  apply_status intent_id (webhook_status type)

-- The handler's `catch`.
abbrev pub report_outcome : Result ℕ × Db → Result WebhookOutcome × Db
report_outcome (ok n, db) = (ok received, db)
report_outcome (err (AppError.unique_violation c), db) = (ok duplicate, db)
report_outcome (err e, db) = (err e, db)

unfoldable pub handle_for_intent : Option ℕ → ℕ → StripeEventType → Action WebhookOutcome
unfolding record_and_apply
handle_for_intent (some event_id) intent_id type db =
    report_outcome (transaction (record_and_apply event_id intent_id type) db)
handle_for_intent none intent_id type db =
    report_outcome (apply_status intent_id (webhook_status type) db)

unfoldable pub handle_webhook_event : StripeEvent → Action WebhookOutcome
unfolding handle_for_intent
handle_webhook_event event = elim event.intent_id [
  | none ↦ pure received
  | some intent_id ↦ handle_for_intent event.id intent_id event.type
]
