-- ===== src/Wallet/Refund.antt =====
-- Refunds of src/wallet/wallet.service.ts take effect at most once.
use drovery_backend.Base.{
  true, ℕ, ◌≤◌, ◌≡◌, refl, Option, none, some, arith, Option-cases, ap, false, ◌⊎◌, inl, inr,
}
use drovery_backend.Base.Table.{find, update_many-count_zero, count-update_many_falsified, count}
use drovery_backend.Store.{Payment, PaymentStatus, delivery_key, Db, WalletTransaction, refund_of}
use drovery_backend.Wallet.{
  credit_within_tx, refund_spend, refund_for_delivery, key_uses, flip_payment, refund_charge,
  refund_charge_to_wallet, refund_found_charge, is_captured,
}

-- Once the refund's key is in the ledger, refunding again changes nothing.
refund_spend_used :
    (did : ℕ) (o : Option WalletTransaction) (db : Db)
    → 1 ≤ key_uses (some (refund_of did)) db.wallet_transactions
    → (refund_spend did o db).1 ≡ db
unfolding refund_spend credit_within_tx
refund_spend_used did none db h = refl
refund_spend_used did (some t) db h = ground arith

-- A refund that was made is in the ledger, and leaves the debit in place.
refund_spend_done :
    (did : ℕ) (t : WalletTransaction) (db : Db)
    → ((refund_spend did (some t) db).1 ≡ db)
      ⊎ ((1 ≤ key_uses (some (refund_of did)) (refund_spend did (some t) db).1.wallet_transactions))
unfolding refund_spend credit_within_tx
refund_spend_done did t db = ground (arith)

-- A refund of the spent credits takes effect once: a second call changes nothing.
pub refund_for_delivery_idempotent :
    (did : ℕ) (db : Db)
    → (refund_for_delivery did (refund_for_delivery did db).1).1 ≡ (refund_for_delivery did db).1
unfolding refund_for_delivery refund_spend credit_within_tx
refund_for_delivery_idempotent did db = ground arith

captured-refunded :
    (did : ℕ) (p : Payment)
    → is_captured did p ≡ true
    → is_captured did (record p { status = PaymentStatus.refunded }) ≡ false
captured-refunded did p h = ground arith

-- The flip leaves no captured payment of the delivery.
flip_payment_none :
    (did : ℕ) (db : Db) → count (is_captured did) (flip_payment did db).1.payments ≡ 0
unfolding flip_payment
flip_payment_none did db =
    count-update_many_falsified (is_captured did)
      (λ p. record p { status = PaymentStatus.refunded }) db.payments (captured-refunded did)

refund_charge_noop :
    (did uid price : ℕ) (db : Db)
    → count (is_captured did) db.payments ≡ 0
    → (refund_charge did uid price db).1 ≡ db
unfolding refund_charge
refund_charge_noop did uid price db h = ground (
  arith,
  update_many-count_zero (is_captured did) (λ p. record p { status = PaymentStatus.refunded })
      db.payments h,
)

refund_charge_done :
    (did uid price : ℕ) (db : Db)
    → ((refund_charge did uid price db).1 ≡ db)
      ⊎ (count (is_captured did) (refund_charge did uid price db).1.payments ≡ 0)
unfolding refund_charge credit_within_tx
refund_charge_done did uid price db = ground (arith, flip_payment_none did db)

refund_charge-deliveries :
    (did uid price : ℕ) (db : Db) → (refund_charge did uid price db).1.deliveries ≡ db.deliveries
unfolding refund_charge credit_within_tx
refund_charge-deliveries did uid price db = ground arith

-- The second call, on what the first has left.
refund_charge_twice :
    (did uid price : ℕ) (db : Db)
    → (refund_charge did uid price (refund_charge did uid price db).1).1
      ≡ (refund_charge did uid price db).1
refund_charge_twice did uid price db = elim (refund_charge_done did uid price db) [
  | inl same ↦ ap (λ d. (refund_charge did uid price d).1) same
  | inr none_left ↦ refund_charge_noop did uid price (refund_charge did uid price db).1 none_left
]

-- A refund of the card charge takes effect once: a second call changes nothing.
pub refund_charge_to_wallet_idempotent :
    (did : ℕ) (db : Db)
    → (refund_charge_to_wallet did (refund_charge_to_wallet did db).1).1
      ≡ (refund_charge_to_wallet did db).1
unfolding refund_charge_to_wallet refund_found_charge
refund_charge_to_wallet_idempotent did db =
    elim (Option-cases (find delivery_key did db.deliveries)) [
      | inl e ↦ ground arith
      | inr (d, e) ↦ ground (
        arith,
        refund_charge_twice did d.user_id d.estimated_price db,
        refund_charge-deliveries did d.user_id d.estimated_price db,
      )
    ]

-- Without a captured payment of the delivery the wallet is not credited.
pub refund_charge_uncaptured :
    (did : ℕ) (db : Db)
    → count (is_captured did) db.payments ≡ 0
    → (refund_charge_to_wallet did db).1 ≡ db
unfolding refund_charge_to_wallet refund_found_charge
refund_charge_uncaptured did db h = elim (Option-cases (find delivery_key did db.deliveries)) [
  | inl e ↦ ground arith
  | inr (d, e) ↦ ground (arith, refund_charge_noop did d.user_id d.estimated_price db h)
]
