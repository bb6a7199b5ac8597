-- ===== src/Examples/Queues.antt =====
-- The webhooks and the outbox: the theorems at the sample database.
use drovery_backend.Base.{ℕ, map, true, none, [], ◌∷◌, some, ◌≡◌, refl, arith}
use drovery_backend.Base.Table.{count}
use drovery_backend.Store.{Db, OutboxEvent, OutboxStatus, ok}
use drovery_backend.Payments.{StripeEvent, intent_payment_failed, handle_webhook_event, duplicate}
use drovery_backend.Payments.Webhook.{PaymentsAdvance, webhook-PaymentsAdvance, webhook_once}
use drovery_backend.Outbox.{dispatch_due, reap_stale_claims}
use drovery_backend.Outbox.Dispatching.{IsSound, dispatch_due-IsSound}
use drovery_backend.Outbox.Reaping.{is_stale_claim, reaped, reap_lem}
use drovery_backend.Examples.Data.{sample}

-- A failure that arrives after the payment completed.
abbrev late_failure : StripeEvent
late_failure = record { id = some 77; type = intent_payment_failed; intent_id = some 9 }

webhook-PaymentsAdvance_example :
    PaymentsAdvance sample.payments (handle_webhook_event late_failure sample).1.payments
webhook-PaymentsAdvance_example = webhook-PaymentsAdvance late_failure sample

webhook_once_example :
    handle_webhook_event late_failure (handle_webhook_event late_failure sample).1
    ≡ (ok duplicate, (handle_webhook_event late_failure sample).1)
webhook_once_example = webhook_once late_failure sample 77 9 refl refl

sample-IsSound : IsSound sample
sample-IsSound = record {
  reconciled = record { keyed = ground arith; accounted = λ uid. ground arith };
  bounded = ground arith;
}

dispatch_due-IsSound_example : IsSound (dispatch_due sample).1
dispatch_due-IsSound_example = dispatch_due-IsSound sample sample-IsSound

-- An event in hand since before its lease, tried twice, and one tried five times.
abbrev stuck : ℕ → OutboxEvent
stuck tried = record {
  id = tried;
  is_referral_reward = true;
  referee_user_id = some 2;
  idempotency_key = tried;
  status = OutboxStatus.processing;
  attempts = tried;
  claimed_at = some 1000;
  processed_at = none;
}

abbrev late : Db
late = record sample { now = 100000; outbox_events = stuck 2 ∷ stuck 5 ∷ [] }

reap_lem_example :
    (reap_stale_claims late
      ≡ (ok tt, record late { outbox_events = map (reaped 100000) (stuck 2 ∷ stuck 5 ∷ []) }))
    × (count (is_stale_claim 100000) (reap_stale_claims late).1.outbox_events ≡ 0)
reap_lem_example = reap_lem late
