-- ===== src/Booking/Books.antt =====
-- The invariants that `create` of src/deliveries/deliveries.service.ts keeps, on every path.
use drovery_backend.Base.{
  ℕ, Bool, not, Option, none, some, List, [], ◌∷◌, ltb, leb, ◌==◌, take, Bool-cases, inl, inr,
  arith,
}
use drovery_backend.Base.Table.{count, find}
use drovery_backend.Store.{
  Db, Delivery, OutboxEvent, TrackingIdEntry, Payment, PromoCode, IdempotencyKey, AppError, Action,
  ⊤, Result, ok, err, pure, throw, when, transaction, best_effort, emit, ◌>>=◌, ◌>>◌, payment_key,
  is_live, debit_of, tracking_id_alloc_failed,
}
use drovery_backend.Store.Invariants.{
  Keeps, KeepsOk, transaction-Keeps, >>=-KeepsOk, >>=-Keeps, when-Keeps, when-KeepsOk, ite_KeepsOk,
  ite_Keeps,
}
use drovery_backend.Wallet.{debit_within_tx, maybe_grant_referral_reward_within_tx}
use drovery_backend.Promo.{DiscountResult, redeem_within_tx}
use drovery_backend.Dispatch.{Distance, DispatchRequest, dispatch}
use drovery_backend.Deliveries.{compensate_reservations, release_claimed_aircraft}
use drovery_backend.Deliveries.Stable.{
  IsStable, IsSoundHandoff, compensate_reservations-Keeps, release_claimed_aircraft-Keeps,
}
use drovery_backend.Payments.{Intent, pay_once, create_delivery_payment}
use drovery_backend.Outbox.{enqueue_within_tx}
use drovery_backend.Booking.Sizing.{CreateRequest, quote}
use drovery_backend.Booking.Split.{quote-Keeps}
use drovery_backend.Booking.Create.{
  Flags, Draft, delivery_row, redeem_promo, debit_credits, rethrow_after, on_error, give_back,
  reserve_first, insert_delivery, register_tracking_id, referral_event, reward_referral,
  charge_in_tx, write_statements, write_delivery, is_tracking_id_collision, after_try, write_tries,
  kickoff_effect, after_write, book, dispatch_request, create, max_tracking_id_tries,
}

-- An invariant that the statements of a booking keep.
pub record IsBookable (P : Db → Type 0) : Type 0 where
  pub stable : IsStable P
  pub outbox : (db : Db) (es : List OutboxEvent) → P db → P (record db { outbox_events = es })
  pub registers : (db : Db) (es : List TrackingIdEntry) → P db → P (record db { registry = es })
  pub pays : (db : Db) (ps : List Payment) → P db → P (record db { payments = ps })
  pub inserts : (row : Delivery) → IsSoundHandoff row → KeepsOk P (insert_delivery row)
  pub redeems :
      (code : PromoCode) (uid did total : ℕ) (d : DiscountResult)
      → KeepsOk P (redeem_within_tx code uid did total d)
  pub debits :
      (uid amount did : ℕ) (key : Option IdempotencyKey)
      → KeepsOk P (debit_within_tx uid amount did key)
  pub rewards : (uid : ℕ) → KeepsOk P (maybe_grant_referral_reward_within_tx uid)

module _ (P : Db → Type 0) (s : IsBookable P) where
  on_error-Keeps :
      {A : Type 0} (m : Action A) (k : Action ⊤) → Keeps P m → Keeps P k → Keeps P (on_error m k)
  on_error-Keeps {A} m k hm hk db h = go (m db) (hm db h)
    where
      go : (o : Result A × Db) → P o.1 → P (rethrow_after k o).1
      go (ok a, db') p = p
      go (err e, db') p = hk db' p

  redeem_promo-KeepsOk : (d : Draft) (o : Option PromoCode) → KeepsOk P (redeem_promo d o)
  unfolding redeem_promo
  redeem_promo-KeepsOk d none db h = h
  redeem_promo-KeepsOk d (some code) db h = s.redeems code _ _ _ _ db h

  debit_credits-KeepsOk : (d : Draft) → KeepsOk P (debit_credits d)
  unfolding debit_credits
  debit_credits-KeepsOk d =
      when-KeepsOk P (ltb 0 d.quote.charge.credits_to_apply)
        (debit_within_tx d.user_id d.quote.charge.credits_to_apply d.request.delivery_id
          (some (debit_of d.request.delivery_id)))
        (s.debits _ _ _ _)

  give_back-Keeps : (flags : Flags) (d : Draft) → Keeps P (give_back flags d)
  unfolding give_back
  give_back-Keeps flags d =
      >>=-Keeps P (when flags.debit_first (compensate_reservations d.request.delivery_id))
        (λ _. release_claimed_aircraft d.decision.drone_id d.request.delivery_id)
        (when-Keeps P flags.debit_first (compensate_reservations d.request.delivery_id)
          (compensate_reservations-Keeps P s.stable.settling d.request.delivery_id))
        (λ _.
          release_claimed_aircraft-Keeps P s.stable.settling d.decision.drone_id
            d.request.delivery_id)

  reserve_first-Keeps : (d : Draft) → Keeps P (reserve_first d)
  unfolding reserve_first
  reserve_first-Keeps d =
      >>=-Keeps P (transaction (redeem_promo d d.quote.promo)) (λ _. transaction (debit_credits d))
        (transaction-Keeps P (redeem_promo d d.quote.promo) (redeem_promo-KeepsOk d d.quote.promo))
        (λ _. transaction-Keeps P (debit_credits d) (debit_credits-KeepsOk d))

  register-KeepsOk : (t i : ℕ) → KeepsOk P (register_tracking_id t i)
  unfolding register_tracking_id
  register-KeepsOk t i db h =
      elim (Bool-cases (leb 1 (count (λ (x : TrackingIdEntry). x.tracking_id == t) db.registry))) [
        | inl e ↦ rw e tt
        | inr e ↦ rw e (s.registers db _ h)
      ]

  enqueue-KeepsOk : (v : OutboxEvent) → KeepsOk P (enqueue_within_tx v)
  unfolding enqueue_within_tx
  enqueue-KeepsOk v db h =
      elim (Bool-cases (
        leb 1
          (count (λ (e : OutboxEvent). e.idempotency_key == v.idempotency_key) db.outbox_events))) [
            | inl e ↦ rw e tt
            | inr e ↦ rw e (s.outbox db _ h)
          ]

  reward_referral-KeepsOk : (flags : Flags) (d : Draft) → KeepsOk P (reward_referral flags d)
  unfolding reward_referral
  reward_referral-KeepsOk flags d =
      ite_KeepsOk P flags.outbox_referral (enqueue_within_tx (referral_event d))
        (maybe_grant_referral_reward_within_tx d.user_id) (enqueue-KeepsOk (referral_event d))
        (s.rewards d.user_id)

  charge_in_tx-KeepsOk : (flags : Flags) (d : Draft) → KeepsOk P (charge_in_tx flags d)
  unfolding charge_in_tx
  charge_in_tx-KeepsOk flags d =
      when-KeepsOk P (not flags.debit_first) (redeem_promo d d.quote.promo >> debit_credits d) (
        >>=-KeepsOk P (redeem_promo d d.quote.promo) (λ _. debit_credits d)
          (redeem_promo-KeepsOk d d.quote.promo) (λ _. debit_credits-KeepsOk d))

  write_statements-KeepsOk :
      (flags : Flags) (d : Draft) (t now : ℕ) → KeepsOk P (write_statements flags d t now)
  unfolding write_statements
  write_statements-KeepsOk flags d t now =
      let row = delivery_row d t now in
      let one = insert_delivery row >> register_tracking_id t d.request.delivery_id in
      let two = one >> charge_in_tx flags d in
      let three = two >> when d.quote.has_pending_referral (reward_referral flags d) in
      >>=-KeepsOk P three (λ _. pure row)
        (>>=-KeepsOk P two (λ _. when d.quote.has_pending_referral (reward_referral flags d))
          (>>=-KeepsOk P one (λ _. charge_in_tx flags d)
            (>>=-KeepsOk P (insert_delivery row) (λ _. register_tracking_id t d.request.delivery_id)
              (s.inserts row (omega arith, λ q. ground arith))
              (λ _. register-KeepsOk t d.request.delivery_id))
            (λ _. charge_in_tx-KeepsOk flags d))
          (λ _.
            when-KeepsOk P d.quote.has_pending_referral (reward_referral flags d)
              (reward_referral-KeepsOk flags d)))
        (λ _ db h. h)

  write_delivery-Keeps : (flags : Flags) (d : Draft) (t : ℕ) → Keeps P (write_delivery flags d t)
  unfolding write_delivery
  write_delivery-Keeps flags d t db =
      transaction-Keeps P (write_statements flags d t db.now)
        (write_statements-KeepsOk flags d t db.now) db

  fail-Keeps :
      (flags : Flags) (d : Draft) (e : AppError)
      → Keeps P (give_back flags d >> throw {A = Delivery} e)
  fail-Keeps flags d e =
      >>=-Keeps P (give_back flags d) (λ _. throw {A = Delivery} e) (give_back-Keeps flags d)
        (λ _ db h. h)

  after_try-Keeps :
      (flags : Flags) (d : Draft) (retry : Action Delivery) (o : Result Delivery × Db)
      → Keeps P retry
      → P o.1
      → P (after_try (give_back flags d) retry o).1
  after_try-Keeps flags d retry (ok row, db) hr h = h
  after_try-Keeps flags d retry (err e, db) hr h =
      ite_Keeps P (is_tracking_id_collision e) retry (give_back flags d >> throw e) hr
        (fail-Keeps flags d e) db h

  write_tries-Keeps : (flags : Flags) (d : Draft) (ts : List ℕ) → Keeps P (write_tries flags d ts)
  unfolding write_tries
  write_tries-Keeps flags d [] db h = fail-Keeps flags d tracking_id_alloc_failed db h
  write_tries-Keeps flags d (t ∷ ts) db h =
      after_try-Keeps flags d (write_tries flags d ts) (write_delivery flags d t db)
        (write_tries-Keeps flags d ts) (write_delivery-Keeps flags d t db h)

  pay_once-Keeps :
      (did amount : ℕ) (i : Result Intent) (o : Option Payment) → Keeps P (pay_once did amount i o)
  pay_once-Keeps did amount i (some p) db h = h
  pay_once-Keeps did amount (err e) none db h = h
  pay_once-Keeps did amount (ok i) none db h = s.pays db _ h

  pay-Keeps : (did amount : ℕ) (i : Result Intent) → Keeps P (create_delivery_payment did amount i)
  unfolding create_delivery_payment
  pay-Keeps did amount i db h = pay_once-Keeps did amount i (find payment_key did db.payments) db h

  after_write-Keeps : (d : Draft) → Keeps P (after_write d)
  unfolding after_write
  after_write-Keeps d =
      let pay =
        create_delivery_payment d.request.delivery_id d.quote.charge.final_total d.request.intent in
      >>=-Keeps P (when (ltb 0 d.quote.charge.final_total) (best_effort pay))
        (λ _.
          when (not (is_live d.decision.tracking_source)) (best_effort (emit (kickoff_effect d))))
        (when-Keeps P (ltb 0 d.quote.charge.final_total) (best_effort pay)
          (pay-Keeps d.request.delivery_id d.quote.charge.final_total d.request.intent))
        (λ _.
          when-Keeps P (not (is_live d.decision.tracking_source))
            (best_effort (emit (kickoff_effect d))) (s.stable.settling.emits (kickoff_effect d)))

  pub book-Keeps : (flags : Flags) (d : Draft) → Keeps P (book flags d)
  unfolding book
  book-Keeps flags d =
      let reserve = on_error (when flags.debit_first (reserve_first d)) (give_back flags d) in
      let tries = write_tries flags d (take max_tracking_id_tries d.request.tracking_ids) in
      >>=-Keeps P (reserve >> tries) (λ row. after_write d >> pure row)
        (>>=-Keeps P reserve (λ _. tries)
          (on_error-Keeps (when flags.debit_first (reserve_first d)) (give_back flags d)
            (when-Keeps P flags.debit_first (reserve_first d) (reserve_first-Keeps d))
            (give_back-Keeps flags d))
          (λ _. write_tries-Keeps flags d (take max_tracking_id_tries d.request.tracking_ids)))
        (λ row. >>=-Keeps P (after_write d) (λ _. pure row) (after_write-Keeps d) (λ _ db h. h))

-- A booking keeps the invariant, whether it returns or throws.
module _ (distance : Distance) (P : Db → Type 0) (s : IsBookable P)
    (dispatches : (enabled : Bool) (req : DispatchRequest)
      → Keeps P (dispatch distance enabled req)) where
  pub create-Keeps :
      (flags : Flags) (uid : ℕ) (r : CreateRequest) → Keeps P (create distance flags uid r)
  unfolding create
  create-Keeps flags uid r =
      >>=-Keeps P (quote distance uid r)
        (λ q. dispatch distance flags.live_dispatch (dispatch_request r q) >>= λ decision.
          book flags (record { user_id = uid; request = r; quote = q; decision = decision }))
        (quote-Keeps distance P uid r)
        (λ q.
          >>=-Keeps P (dispatch distance flags.live_dispatch (dispatch_request r q))
            (λ decision.
              book flags (record { user_id = uid; request = r; quote = q; decision = decision }))
            (dispatches flags.live_dispatch (dispatch_request r q))
            (λ decision.
              book-Keeps P s flags
                (record { user_id = uid; request = r; quote = q; decision = decision })))
