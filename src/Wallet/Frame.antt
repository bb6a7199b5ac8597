-- ===== src/Wallet/Frame.antt =====
-- The tables that the refunds of src/wallet/wallet.service.ts leave alone.
use mathlib.Core.Path.{subst}
use drovery_backend.Base.{sym, ℕ, List, Option, none, some, ◌≡◌, refl, ◌&&◌, not, ◌==◌, leb, arith}
use drovery_backend.Base.Table.{find}
use drovery_backend.Store.{
  Db, Delivery, Drone, PromoCode, PromoRedemption, WalletTransaction, IdempotencyKey, TxnReason,
  Result, ok, err, delivery_key, DroneCommand, TrackingIdEntry, FlightFrame, RecurringDelivery,
  OutboxEvent, Referral, referee_key, transaction, when,
}
use drovery_backend.Store.Invariants.{
  Keeps, KeepsOk, AfterOk, AfterOk-intro, transaction-Keeps, >>=-KeepsOk, when-KeepsOk, when-Keeps,
  ignore_unique_violation-Keeps,
}
use drovery_backend.Wallet.{
  create_transaction, update_user, credit_within_tx, debit_within_tx, spend_of, credit_spend,
  refund_spend, refund_for_delivery, flip_payment, credit_charge, flip_and_credit, refund_charge,
  refund_found_charge, refund_charge_to_wallet, claim_referral, reward_referrer, reward_referee,
  grant_rewards, claim_and_grant, grant_found_referral, maybe_grant_referral_reward_within_tx,
  is_pending_referral,
}

-- The tables of the other components.
pub record Rest : Type 0 where
  pub deliveries : List Delivery
  pub drones : List Drone
  pub promo_codes : List PromoCode
  pub redemptions : List PromoRedemption
  pub commands : List DroneCommand
  pub registry : List TrackingIdEntry
  pub flight_frames : List FlightFrame
  pub recurring_deliveries : List RecurringDelivery
  pub now : ℕ
  pub outbox_events : List OutboxEvent

abbrev pub rest_of : Db → Rest
rest_of db = record {
  deliveries = db.deliveries;
  drones = db.drones;
  promo_codes = db.promo_codes;
  redemptions = db.redemptions;
  commands = db.commands;
  registry = db.registry;
  flight_frames = db.flight_frames;
  recurring_deliveries = db.recurring_deliveries;
  now = db.now;
  outbox_events = db.outbox_events;
}

abbrev pub HasRest : Rest → Db → Type 0
HasRest r db = rest_of db ≡ r

module _ (r : Rest) where
  credit-rest :
      (uid amount : ℕ) (reason : TxnReason) (did rid : Option ℕ) (key : Option IdempotencyKey)
      → KeepsOk (HasRest r) (credit_within_tx uid amount reason did rid key)
  unfolding credit_within_tx create_transaction update_user
  credit-rest uid amount reason did rid key db h =
      AfterOk-intro (HasRest r) (credit_within_tx uid amount reason did rid key db)
        (λ a e. ground (arith, h, e))

  refund_spend-rest :
      (did : ℕ) (o : Option WalletTransaction) → Keeps (HasRest r) (refund_spend did o)
  unfolding refund_spend credit_spend
  refund_spend-rest did none db h = h
  refund_spend-rest did (some t) db h =
      ignore_unique_violation-Keeps (HasRest r) (transaction (credit_spend did t))
        (transaction-Keeps (HasRest r) (credit_spend did t) (credit-rest _ _ _ _ _ _)) db h

  refund_for_delivery-rest : (did : ℕ) → Keeps (HasRest r) (refund_for_delivery did)
  unfolding refund_for_delivery
  refund_for_delivery-rest did db h =
      refund_spend-rest did (spend_of did db.wallet_transactions) db h

  flip_and_credit-rest : (did uid price : ℕ) → KeepsOk (HasRest r) (flip_and_credit did uid price)
  unfolding flip_and_credit flip_payment credit_charge
  flip_and_credit-rest did uid price =
      >>=-KeepsOk (HasRest r) (flip_payment did) (λ n. when (leb 1 n) (credit_charge did uid price))
        (λ db h. h)
        (λ n.
          when-KeepsOk (HasRest r) (leb 1 n) (credit_charge did uid price)
            (credit-rest _ _ _ _ _ _))

  refund_found-rest :
      (did : ℕ) (o : Option Delivery) → Keeps (HasRest r) (refund_found_charge did o)
  unfolding refund_found_charge refund_charge
  refund_found-rest did none db h = h
  refund_found-rest did (some d) db h =
      when-Keeps (HasRest r) (leb 1 d.estimated_price)
        (refund_charge did d.user_id d.estimated_price)
        (ignore_unique_violation-Keeps (HasRest r)
          (transaction (flip_and_credit did d.user_id d.estimated_price))
          (transaction-Keeps (HasRest r) (flip_and_credit did d.user_id d.estimated_price)
            (flip_and_credit-rest did d.user_id d.estimated_price)))
        db h

  refund_charge_to_wallet-rest : (did : ℕ) → Keeps (HasRest r) (refund_charge_to_wallet did)
  unfolding refund_charge_to_wallet
  refund_charge_to_wallet-rest did db h =
      refund_found-rest did (find delivery_key did db.deliveries) db h

module _ (r : Rest) where
  grant_rewards-rest : (ref : Referral) (uid : ℕ) → KeepsOk (HasRest r) (grant_rewards ref uid)
  unfolding grant_rewards reward_referrer reward_referee
  grant_rewards-rest ref uid =
      >>=-KeepsOk (HasRest r) (reward_referrer ref) (λ _. reward_referee ref uid)
        (credit-rest r _ _ _ _ _ _) (λ _. credit-rest r _ _ _ _ _ _)

  claim_and_grant-rest : (ref : Referral) (uid : ℕ) → KeepsOk (HasRest r) (claim_and_grant ref uid)
  unfolding claim_and_grant claim_referral
  claim_and_grant-rest ref uid =
      >>=-KeepsOk (HasRest r) (claim_referral ref) (λ won. when (leb 1 won) (grant_rewards ref uid))
        (λ db h. h)
        (λ won.
          when-KeepsOk (HasRest r) (leb 1 won) (grant_rewards ref uid) (grant_rewards-rest ref uid))

  grant_found-rest :
      (o : Option Referral) (uid : ℕ) → KeepsOk (HasRest r) (grant_found_referral o uid)
  unfolding grant_found_referral
  grant_found-rest none uid db h = h
  grant_found-rest (some ref) uid db h =
      when-KeepsOk (HasRest r) (is_pending_referral ref && not (ref.referrer_id == uid))
        (claim_and_grant ref uid) (claim_and_grant-rest ref uid) db h

  pub reward-rest : (uid : ℕ) → KeepsOk (HasRest r) (maybe_grant_referral_reward_within_tx uid)
  unfolding maybe_grant_referral_reward_within_tx
  reward-rest uid db h = grant_found-rest (find referee_key uid db.referrals) uid db h

-- What holds of the other tables holds of them after a refund.
module _ (Q : Rest → Type 0) (did : ℕ) where
  pub refund_for_delivery-frame : Keeps (λ db. Q (rest_of db)) (refund_for_delivery did)
  refund_for_delivery-frame db h =
      subst Q (sym (refund_for_delivery-rest (rest_of db) did db refl)) h

  pub refund_charge_to_wallet-frame : Keeps (λ db. Q (rest_of db)) (refund_charge_to_wallet did)
  refund_charge_to_wallet-frame db h =
      subst Q (sym (refund_charge_to_wallet-rest (rest_of db) did db refl)) h

AfterOk-subst :
    {A : Type 0} (Q : Rest → Type 0) (r : Rest) (o : Result A × Db)
    → Q r
    → AfterOk (HasRest r) o
    → AfterOk (λ db. Q (rest_of db)) o
AfterOk-subst Q r (ok a, db) q h = subst Q (sym h) q
AfterOk-subst Q r (err e, db) q h = tt

-- What holds of the other tables holds of them after a reward.
pub reward-frame :
    (Q : Rest → Type 0) (uid : ℕ)
    → KeepsOk (λ db. Q (rest_of db)) (maybe_grant_referral_reward_within_tx uid)
reward-frame Q uid db h =
    AfterOk-subst Q (rest_of db) (maybe_grant_referral_reward_within_tx uid db) h
      (reward-rest (rest_of db) uid db refl)

debit-rest :
    (r : Rest) (uid amount did : ℕ) (key : Option IdempotencyKey)
    → KeepsOk (HasRest r) (debit_within_tx uid amount did key)
unfolding debit_within_tx create_transaction update_user
debit-rest r uid amount did key db h =
    AfterOk-intro (HasRest r) (debit_within_tx uid amount did key db) (λ a e. ground (arith, h, e))

-- What holds of the other tables holds of them after a debit.
pub debit-frame :
    (Q : Rest → Type 0) (uid amount did : ℕ) (key : Option IdempotencyKey)
    → KeepsOk (λ db. Q (rest_of db)) (debit_within_tx uid amount did key)
debit-frame Q uid amount did key db h =
    AfterOk-subst Q (rest_of db) (debit_within_tx uid amount did key db) h
      (debit-rest (rest_of db) uid amount did key db refl)
