-- ===== src/Wallet/Reconcile.antt =====
-- The ledger of src/wallet/wallet.service.ts accounts for every balance.
use drovery_backend.Base.{
  not, ◌&&◌, Bool, true, ℕ, ◌+◌, ◌-◌, ◌≡◌, refl, Option, none, some, sum_by, arith, ◌==◌, leb,
  if◌then◌else◌,
}
use drovery_backend.Base.Table.{find, at, find-update_at, count-at, IsKeyed, IsKeyed-update_many}
use drovery_backend.Store.{
  when, transaction, delivery_key, Delivery, Db, User, user_key, WalletTransaction, credit, debit,
  TxnReason, IdempotencyKey, Referral, ok,
}
use drovery_backend.Store.Invariants.{
  KeepsOk, Keeps, AfterOk-intro, >>=-KeepsOk, when-KeepsOk, when-Keeps,
  ignore_unique_violation-Keeps, transaction-Keeps,
}
use drovery_backend.Wallet.{
  balance_or_zero, credit_within_tx, debit_within_tx, grant_rewards, reward_referrer,
  reward_referee, claim_and_grant, is_pending_referral, credit_spend, credit_charge,
  flip_and_credit, claim_referral, grant_found_referral, maybe_grant_referral_reward_within_tx,
  refund_spend, refund_for_delivery, flip_payment, refund_charge, refund_found_charge,
  refund_charge_to_wallet,
}

abbrev pub credited : ℕ → WalletTransaction → ℕ
credited uid t = if t.user_id == uid then elim t.type [ credit ↦ t.amount | debit ↦ 0 ] else 0

abbrev pub debited : ℕ → WalletTransaction → ℕ
debited uid t = if t.user_id == uid then elim t.type [ credit ↦ 0 | debit ↦ t.amount ] else 0

abbrev pub balance : ℕ → Db → ℕ
balance uid db = balance_or_zero (find user_key uid db.users)

-- The balance of a user is what the ledger credited less what it debited.
abbrev pub IsAccounted : Db → ℕ → Type 0
IsAccounted db uid =
    balance uid db + sum_by (debited uid) db.wallet_transactions
    ≡ sum_by (credited uid) db.wallet_transactions

pub record IsReconciled (db : Db) : Type 0 where
  pub keyed : IsKeyed user_key db.users
  pub accounted : (uid : ℕ) → IsAccounted db uid

abbrev pub raise_balance : ℕ → User → User
raise_balance amount u = record u { credit_balance = u.credit_balance + amount }

abbrev lower_balance : ℕ → User → User
lower_balance amount u = record u { credit_balance = u.credit_balance - amount }

abbrev covers : ℕ → User → Bool
covers amount u = leb amount u.credit_balance

module _ (user_id amount : ℕ) where
  module _ (reason : TxnReason) (did rid : Option ℕ) (key : Option IdempotencyKey) where
    credit-IsKeyed :
        (db : Db)
        → IsReconciled db
        → (credit_within_tx user_id amount reason did rid key db).0 ≡ ok tt
        → IsKeyed user_key (credit_within_tx user_id amount reason did rid key db).1.users
    unfolding credit_within_tx
    credit-IsKeyed db h e = ground (
      arith,
      IsKeyed-update_many user_key (at user_key user_id (λ u. true)) (raise_balance amount) db.users
          (λ u. refl) h.keyed,
    )

    credit-IsAccounted :
        (db : Db)
        → IsReconciled db
        → (credit_within_tx user_id amount reason did rid key db).0 ≡ ok tt
        → (uid : ℕ) → IsAccounted (credit_within_tx user_id amount reason did rid key db).1 uid
    unfolding credit_within_tx
    credit-IsAccounted db h e uid = ground (
      arith,
      h.accounted uid,
      find-update_at user_key uid user_id (λ u. true) (raise_balance amount) db.users (λ u. refl),
      count-at user_key user_id (λ u. true) db.users h.keyed,
    )

    -- Minting credits keeps the ledger reconciled.
    pub credit-IsReconciled :
        KeepsOk IsReconciled (credit_within_tx user_id amount reason did rid key)
    credit-IsReconciled db h =
        AfterOk-intro IsReconciled _
          (λ _ e. record { keyed = credit-IsKeyed db h e; accounted = credit-IsAccounted db h e })

  module _ (did : ℕ) (key : Option IdempotencyKey) where
    debit-IsKeyed :
        (db : Db)
        → IsReconciled db
        → (debit_within_tx user_id amount did key db).0 ≡ ok tt
        → IsKeyed user_key (debit_within_tx user_id amount did key db).1.users
    unfolding debit_within_tx
    debit-IsKeyed db h e = ground (
      arith,
      IsKeyed-update_many user_key (at user_key user_id (covers amount)) (lower_balance amount)
          db.users (λ u. refl) h.keyed,
    )

    debit-IsAccounted :
        (db : Db)
        → IsReconciled db
        → (debit_within_tx user_id amount did key db).0 ≡ ok tt
        → (uid : ℕ) → IsAccounted (debit_within_tx user_id amount did key db).1 uid
    unfolding debit_within_tx
    debit-IsAccounted db h e uid = ground (
      arith,
      h.accounted uid,
      find-update_at user_key uid user_id (covers amount) (lower_balance amount) db.users
          (λ u. refl),
      count-at user_key user_id (covers amount) db.users h.keyed,
    )

    -- Spending credits keeps the ledger reconciled.
    pub debit-IsReconciled : KeepsOk IsReconciled (debit_within_tx user_id amount did key)
    debit-IsReconciled db h =
        AfterOk-intro IsReconciled _
          (λ _ e. record { keyed = debit-IsKeyed db h e; accounted = debit-IsAccounted db h e })

    -- A debit that returns was covered by the balance, and takes off exactly its amount.
    pub debit_covered :
        (db : Db)
        → IsReconciled db
        → (debit_within_tx user_id amount did key db).0 ≡ ok tt
        → balance user_id (debit_within_tx user_id amount did key db).1 + amount
          ≡ balance user_id db
    unfolding debit_within_tx
    debit_covered db h e = ground (
      arith,
      find-update_at user_key user_id user_id (covers amount) (lower_balance amount) db.users
          (λ u. refl),
      count-at user_key user_id (covers amount) db.users h.keyed,
    )

-- A referral's status is no part of the ledger.
claim_referral-IsReconciled : (ref : Referral) → KeepsOk IsReconciled (claim_referral ref)
unfolding claim_referral
claim_referral-IsReconciled ref db h = record { keyed = h.keyed; accounted = h.accounted }

grant_rewards-IsReconciled :
    (ref : Referral) (uid : ℕ) → KeepsOk IsReconciled (grant_rewards ref uid)
unfolding grant_rewards
grant_rewards-IsReconciled ref uid =
    >>=-KeepsOk IsReconciled (reward_referrer ref) (λ _. reward_referee ref uid)
      (credit-IsReconciled _ _ _ _ _ _) (λ _. credit-IsReconciled _ _ _ _ _ _)

claim_and_grant-IsReconciled :
    (ref : Referral) (uid : ℕ) → KeepsOk IsReconciled (claim_and_grant ref uid)
unfolding claim_and_grant
claim_and_grant-IsReconciled ref uid =
    >>=-KeepsOk IsReconciled (claim_referral ref) (λ won. when (leb 1 won) (grant_rewards ref uid))
      (claim_referral-IsReconciled ref)
      (λ won.
        when-KeepsOk IsReconciled (leb 1 won) (grant_rewards ref uid)
          (grant_rewards-IsReconciled ref uid))

grant_found-IsReconciled :
    (o : Option Referral) (uid : ℕ) → KeepsOk IsReconciled (grant_found_referral o uid)
unfolding grant_found_referral
grant_found-IsReconciled none uid db h = h
grant_found-IsReconciled (some ref) uid db h =
    when-KeepsOk IsReconciled (is_pending_referral ref && not (ref.referrer_id == uid))
      (claim_and_grant ref uid) (claim_and_grant-IsReconciled ref uid) db h

-- The referral reward keeps the ledger reconciled.
pub reward-IsReconciled :
    (uid : ℕ) → KeepsOk IsReconciled (maybe_grant_referral_reward_within_tx uid)
unfolding maybe_grant_referral_reward_within_tx
reward-IsReconciled uid db h = grant_found-IsReconciled _ uid db h

refund_spend-IsReconciled :
    (did : ℕ) (o : Option WalletTransaction) → Keeps IsReconciled (refund_spend did o)
unfolding refund_spend
refund_spend-IsReconciled did none db h = h
refund_spend-IsReconciled did (some spend) db h =
    ignore_unique_violation-Keeps IsReconciled (transaction (credit_spend did spend))
      (transaction-Keeps IsReconciled (credit_spend did spend) (credit-IsReconciled _ _ _ _ _ _)) db
      h

-- A refund of spent credits keeps the ledger reconciled, however it ends.
pub refund_for_delivery-IsReconciled : (did : ℕ) → Keeps IsReconciled (refund_for_delivery did)
unfolding refund_for_delivery
refund_for_delivery-IsReconciled did db h = refund_spend-IsReconciled did _ db h

flip_payment-IsReconciled : (did : ℕ) → KeepsOk IsReconciled (flip_payment did)
unfolding flip_payment
flip_payment-IsReconciled did db h = record { keyed = h.keyed; accounted = h.accounted }

flip_and_credit-IsReconciled :
    (did uid price : ℕ) → KeepsOk IsReconciled (flip_and_credit did uid price)
unfolding flip_and_credit
flip_and_credit-IsReconciled did uid price =
    >>=-KeepsOk IsReconciled (flip_payment did)
      (λ flipped. when (leb 1 flipped) (credit_charge did uid price))
      (flip_payment-IsReconciled did)
      (λ flipped.
        when-KeepsOk IsReconciled (leb 1 flipped) (credit_charge did uid price)
          (credit-IsReconciled _ _ _ _ _ _))

refund_charge-IsReconciled : (did uid price : ℕ) → Keeps IsReconciled (refund_charge did uid price)
unfolding refund_charge
refund_charge-IsReconciled did uid price =
    ignore_unique_violation-Keeps IsReconciled (transaction (flip_and_credit did uid price)) (
      transaction-Keeps IsReconciled (flip_and_credit did uid price)
        (flip_and_credit-IsReconciled did uid price))

refund_found-IsReconciled :
    (did : ℕ) (o : Option Delivery) → Keeps IsReconciled (refund_found_charge did o)
unfolding refund_found_charge
refund_found-IsReconciled did none db h = h
refund_found-IsReconciled did (some d) db h =
    when-Keeps IsReconciled (leb 1 d.estimated_price)
      (refund_charge did d.user_id d.estimated_price)
      (refund_charge-IsReconciled did d.user_id d.estimated_price) db h

-- A refund of the card charge keeps the ledger reconciled, however it ends.
pub refund_charge_to_wallet-IsReconciled :
    (did : ℕ) → Keeps IsReconciled (refund_charge_to_wallet did)
unfolding refund_charge_to_wallet
refund_charge_to_wallet-IsReconciled did db h =
    refund_found-IsReconciled did (find delivery_key did db.deliveries) db h
