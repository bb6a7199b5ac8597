-- ===== src/Booking/Create.antt =====
-- The dispatch, the reservations, the write, the payment and the start in `create` of
-- src/deliveries/deliveries.service.ts.
use drovery_backend.Base.{
  ℕ, Bool, true, false, not, Option, none, some, List, [], ◌∷◌, ◌==◌, leb, ltb, if◌then◌else◌, take,
}
use drovery_backend.Base.Table.{count}
use drovery_backend.Store.{
  Db, Delivery, DeliveryStatus, TrackingIdEntry, OutboxEvent, OutboxStatus, is_live, scheduled,
  AppError, unique_violation, tracking_id, delivery_id, tracking_id_alloc_failed, debit_of, Effect,
  schedule_kickoff, start_simulation, PromoCode, Action, ⊤, Result, ok, err, pure, throw, gets,
  modify, when, throw_if, transaction, best_effort, emit, ◌>>=◌, ◌>>◌,
}
use drovery_backend.Wallet.{debit_within_tx, maybe_grant_referral_reward_within_tx}
use drovery_backend.Promo.{redeem_within_tx}
use drovery_backend.Dispatch.{DispatchDecision, DispatchRequest, dispatch, Distance}
use drovery_backend.Deliveries.{compensate_reservations, release_claimed_aircraft}
use drovery_backend.Payments.{create_delivery_payment}
use drovery_backend.Outbox.{enqueue_within_tx}
use drovery_backend.Booking.Sizing.{CreateRequest, Quote, quote}

-- `DELIVERY_DEBIT_FIRST`, `DELIVERY_OUTBOX_REFERRAL` and `LIVE_DISPATCH`.
pub record Flags : Type 0 where
  pub debit_first : Bool
  pub outbox_referral : Bool
  pub live_dispatch : Bool

abbrev pub max_tracking_id_tries : ℕ
max_tracking_id_tries = 5

-- What the booking writes, once the aircraft is decided.
pub record Draft : Type 0 where
  pub user_id : ℕ
  pub request : CreateRequest
  pub quote : Quote
  pub decision : DispatchDecision

abbrev pub draft_status : Draft → DeliveryStatus
draft_status d = if d.quote.starts_later then scheduled else DeliveryStatus.pending

abbrev pub delivery_row : Draft → ℕ → ℕ → Delivery
delivery_row d tracking now = record {
  id = d.request.delivery_id;
  tracking_id = tracking;
  user_id = d.user_id;
  status = draft_status d;
  tracking_source = d.decision.tracking_source;
  assigned_drone_id = d.decision.drone_id;
  failure_reason = none;
  from_lat = d.quote.route.from_lat;
  from_lng = d.quote.route.from_lng;
  to_lat = d.quote.route.to_lat;
  to_lng = d.quote.route.to_lng;
  package_weight = d.request.package_weight;
  scheduled_for = if d.quote.starts_later then d.request.scheduled_for else none;
  estimated_price = d.quote.charge.final_total;
  handoff_code_hash = some d.request.handoff_code_hash;
  handoff_attempts = 0;
  handoff_confirmed_at = none;
  created_at = now;
}

unfoldable pub redeem_promo : Draft → Option PromoCode → Action ⊤
redeem_promo d none = pure tt
redeem_promo d (some code) =
    redeem_within_tx code d.user_id d.request.delivery_id d.quote.original_total d.quote.discount

unfoldable pub debit_credits : Draft → Action ⊤
debit_credits d = when (ltb 0 d.quote.charge.credits_to_apply) (
    debit_within_tx d.user_id d.quote.charge.credits_to_apply d.request.delivery_id
      (some (debit_of d.request.delivery_id)))

-- `catch (e) { await k; throw e; }`
abbrev pub rethrow_after : {A : Type 0} → Action ⊤ → Result A × Db → Result A × Db
rethrow_after k (ok a, db) = (ok a, db)
rethrow_after k (err e, db) = (err e, (k db).1)

abbrev pub on_error : {A : Type 0} → Action A → Action ⊤ → Action A
on_error m k db = rethrow_after k (m db)

-- What a booking that fails gives back.
unfoldable pub give_back : Flags → Draft → Action ⊤
give_back flags d =
    when flags.debit_first (compensate_reservations d.request.delivery_id)
    >> release_claimed_aircraft d.decision.drone_id d.request.delivery_id

-- The reservations that are made before the delivery is written.
unfoldable pub reserve_first : Draft → Action ⊤
unfolding redeem_promo debit_credits
reserve_first d = transaction (redeem_promo d d.quote.promo) >> transaction (debit_credits d)

-- The id is a fresh UUID: a row that has it already is refused here, though the key of the table is
-- the id with `createdAt`.
unfoldable pub insert_delivery : Delivery → Action ⊤
insert_delivery row = do
  taken ← gets (λ db. count (λ (x : Delivery). x.id == row.id) db.deliveries)
  throw_if (leb 1 taken) (unique_violation delivery_id)
  modify (λ db. record db { deliveries = row ∷ db.deliveries })

unfoldable pub register_tracking_id : ℕ → ℕ → Action ⊤
register_tracking_id tracking delivery = do
  taken ← gets (λ db. count (λ (x : TrackingIdEntry). x.tracking_id == tracking) db.registry)
  throw_if (leb 1 taken) (unique_violation tracking_id)
  modify (λ db. record db {
    registry = record { tracking_id = tracking; delivery_id = delivery } ∷ db.registry;
  })

-- The event's own id is the delivery's, of which it has one.
abbrev pub referral_event : Draft → OutboxEvent
referral_event d = record {
  id = d.request.delivery_id;
  is_referral_reward = true;
  referee_user_id = some d.user_id;
  idempotency_key = d.request.delivery_id;
  status = OutboxStatus.pending;
  attempts = 0;
  claimed_at = none;
  processed_at = none;
}

unfoldable pub reward_referral : Flags → Draft → Action ⊤
reward_referral flags d =
    if flags.outbox_referral
    then enqueue_within_tx (referral_event d)
    else maybe_grant_referral_reward_within_tx d.user_id

-- The charge inside the transaction, unless it was reserved first.
unfoldable pub charge_in_tx : Flags → Draft → Action ⊤
unfolding redeem_promo debit_credits
charge_in_tx flags d =
    when (not flags.debit_first) (redeem_promo d d.quote.promo >> debit_credits d)

unfoldable pub write_statements : Flags → Draft → ℕ → ℕ → Action Delivery
unfolding insert_delivery register_tracking_id charge_in_tx reward_referral
write_statements flags d tracking now =
    insert_delivery (delivery_row d tracking now)
    >> register_tracking_id tracking d.request.delivery_id
    >> charge_in_tx flags d
    >> when d.quote.has_pending_referral (reward_referral flags d)
    >> pure (delivery_row d tracking now)

-- The transaction with one tracking id.
unfoldable pub write_delivery : Flags → Draft → ℕ → Action Delivery
unfolding write_statements
write_delivery flags d tracking = do
  now ← gets (λ db. db.now)
  transaction (write_statements flags d tracking now)

-- `isTrackingIdCollision`
abbrev pub is_tracking_id_collision : AppError → Bool
is_tracking_id_collision (AppError.unique_violation tracking_id) = true
is_tracking_id_collision _ = false

-- After one try: done, another id, or the error.
abbrev pub after_try : Action ⊤ → Action Delivery → Result Delivery × Db → Result Delivery × Db
after_try give_back retry (ok row, db) = (ok row, db)
after_try give_back retry (err e, db) =
    (if is_tracking_id_collision e then retry else (give_back >> throw e)) db

unfoldable pub write_tries : Flags → Draft → List ℕ → Action Delivery
unfolding write_delivery give_back
write_tries flags d [] db = (give_back flags d >> throw tracking_id_alloc_failed) db
write_tries flags d (tracking ∷ rest) db =
    after_try (give_back flags d) (write_tries flags d rest) (write_delivery flags d tracking db)

abbrev pub kickoff_effect : Draft → Effect
kickoff_effect d =
    if d.quote.starts_later
    then schedule_kickoff d.request.delivery_id
        (elim d.request.scheduled_for [ none ↦ 0 | some t ↦ t ])
    else start_simulation d.request.delivery_id

-- The payment and the start, after the delivery is there. Both are best-effort.
unfoldable pub after_write : Draft → Action ⊤
unfolding create_delivery_payment
after_write d =
    when (ltb 0 d.quote.charge.final_total) (
      best_effort
        (create_delivery_payment d.request.delivery_id d.quote.charge.final_total d.request.intent))
    >> when (not (is_live d.decision.tracking_source)) (best_effort (emit (kickoff_effect d)))

unfoldable pub book : Flags → Draft → Action Delivery
unfolding reserve_first write_tries after_write give_back
book flags d =
    on_error (when flags.debit_first (reserve_first d)) (give_back flags d)
    >> write_tries flags d (take max_tracking_id_tries d.request.tracking_ids)
    >>= λ row. after_write d >> pure row

abbrev pub dispatch_request : CreateRequest → Quote → DispatchRequest
dispatch_request r q = record {
  delivery_id = r.delivery_id;
  payload = r.package_weight;
  route = q.route;
  is_scheduled = q.starts_later;
}

module _ (distance : Distance) where
  unfoldable pub create : Flags → ℕ → CreateRequest → Action Delivery
  unfolding quote book
  create flags user_id r = do
    q ← quote distance user_id r
    decision ← dispatch distance flags.live_dispatch (dispatch_request r q)
    book flags (record { user_id = user_id; request = r; quote = q; decision = decision })
