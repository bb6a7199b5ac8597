-- ===== src/Wallet.antt =====
-- src/wallet/wallet.service.ts: store credits, their ledger, and the referral reward. Amounts are
-- whole cents, on which the source's `round2` changes nothing.
pub mod Reconcile
pub mod Frame
pub mod Refund
pub mod Reward
use drovery_backend.Base.{
  ℕ, ◌+◌, ◌-◌, Bool, true, false, ◌&&◌, Option, none, some, List, [], ◌∷◌, leb, ◌==◌, ◌==?◌, not,
}
use drovery_backend.Base.Table.{find_first, count, update_many, at, find}
use drovery_backend.Store.{
  Db, User, user_key, WalletTransaction, TxnType, credit, debit, TxnReason, checkout_spend,
  checkout_refund, referral_reward, referee_reward, Referral, ReferralStatus, referee_key,
  IdempotencyKey, debit_of, refund_of, exception_refund_of, referrer_of, referee_of, Payment,
  PaymentStatus, Delivery, delivery_key, unique_violation, wallet_idempotency_key,
  insufficient_credits, row_not_found, Action, ⊤, ok, err, pure, gets, throw_if, when, modify,
  transaction, ignore_unique_violation, ◌>>=◌, ◌>>◌,
}

-- wallet.constants.ts, in cents.
abbrev pub referrer_reward_amount : ℕ
referrer_reward_amount = 500

abbrev pub referee_reward_amount : ℕ
referee_reward_amount = 500

-- The prefix of a key's text.
abbrev pub key_prefix : IdempotencyKey → ℕ
key_prefix (debit_of _) = 0
key_prefix (refund_of _) = 1
key_prefix (exception_refund_of _) = 2
key_prefix (referrer_of _) = 3
key_prefix (referee_of _) = 4

-- The id that the key's text ends in.
abbrev pub key_id : IdempotencyKey → ℕ
key_id (debit_of a) = a
key_id (refund_of a) = a
key_id (exception_refund_of a) = a
key_id (referrer_of a) = a
key_id (referee_of a) = a

abbrev pub key_eq : IdempotencyKey → IdempotencyKey → Bool
key_eq a b = key_prefix a == key_prefix b && key_id a == key_id b

-- Nulls are distinct to a unique index.
abbrev pub nullable_key_eq : Option IdempotencyKey → Option IdempotencyKey → Bool
nullable_key_eq none b = false
nullable_key_eq (some a) none = false
nullable_key_eq (some a) (some b) = key_eq a b

-- How many ledger rows carry the key.
abbrev pub key_uses : Option IdempotencyKey → List WalletTransaction → ℕ
key_uses k = count (λ t. nullable_key_eq k t.idempotency_key)

-- `tx.walletTransaction.create`, with its unique index on the idempotency key.
create_transaction : WalletTransaction → Action ⊤
create_transaction t = do
  uses ← gets (λ db. key_uses t.idempotency_key db.wallet_transactions)
  throw_if (leb 1 uses) (unique_violation wallet_idempotency_key)
  modify (λ db. record db { wallet_transactions = t ∷ db.wallet_transactions })

-- `tx.user.updateMany({ where: { id, ... } })`: the number of rows that matched.
update_user : ℕ → (User → Bool) → (User → User) → Action ℕ
update_user id p f db = (
  ok (count (at user_key id p) db.users),
  record db { users = update_many (at user_key id p) f db.users },
)

abbrev pub balance_or_zero : Option User → ℕ
balance_or_zero none = 0
balance_or_zero (some u) = u.credit_balance

-- Mint credits: raise the balance and add a ledger row.
unfoldable pub credit_within_tx :
    ℕ → ℕ → TxnReason → Option ℕ → Option ℕ → Option IdempotencyKey → Action ⊤
unfolding create_transaction update_user
credit_within_tx user_id amount reason delivery_id referral_id key = do
  updated ←
      update_user user_id (λ u. true) (λ u. record u { credit_balance = u.credit_balance + amount })
  throw_if (updated == 0) row_not_found
  u ← gets (λ db. find user_key user_id db.users)
  now ← gets (λ db. db.now)
  create_transaction (record {
    user_id = user_id;
    type = credit;
    reason = reason;
    amount = amount;
    balance_after = balance_or_zero u;
    delivery_id = delivery_id;
    referral_id = referral_id;
    idempotency_key = key;
    created_at = now;
  })

-- Spend credits: lower the balance only if it covers the amount, and add a ledger row.
unfoldable pub debit_within_tx : ℕ → ℕ → ℕ → Option IdempotencyKey → Action ⊤
unfolding create_transaction update_user
debit_within_tx user_id amount delivery_id key = do
  updated ←
      update_user user_id (λ u. leb amount u.credit_balance)
        (λ u. record u { credit_balance = u.credit_balance - amount })
  throw_if (updated == 0) insufficient_credits
  u ← gets (λ db. find user_key user_id db.users)
  now ← gets (λ db. db.now)
  create_transaction (record {
    user_id = user_id;
    type = debit;
    reason = checkout_spend;
    amount = amount;
    balance_after = balance_or_zero u;
    delivery_id = some delivery_id;
    referral_id = none;
    idempotency_key = key;
    created_at = now;
  })

abbrev pub is_pending_referral : Referral → Bool
is_pending_referral r = elim r.status [ ReferralStatus.pending ↦ true | _ ↦ false ]

unfoldable pub reward_referrer : Referral → Action ⊤
reward_referrer ref =
    credit_within_tx ref.referrer_id referrer_reward_amount referral_reward none (some ref.id)
      (some (referrer_of ref.id))

unfoldable pub reward_referee : Referral → ℕ → Action ⊤
reward_referee ref referee_id =
    credit_within_tx referee_id referee_reward_amount referee_reward none (some ref.id)
      (some (referee_of ref.id))

-- Both credits of a referral whose transition from PENDING this call has won.
unfoldable pub grant_rewards : Referral → ℕ → Action ⊤
unfolding reward_referrer reward_referee
grant_rewards ref referee_id = do reward_referrer ref; reward_referee ref referee_id

-- `tx.referral.updateMany({ where: { id, status: 'PENDING' } })`
unfoldable pub claim_referral : Referral → Action ℕ
claim_referral ref db =
    let won = λ (r : Referral). r.id == ref.id && is_pending_referral r in
    (
      ok (count won db.referrals),
      record db {
        referrals =
            update_many won
              (λ r. record r {
                status = ReferralStatus.rewarded;
                rewarded_at = some db.now;
                referrer_reward = some referrer_reward_amount;
                referee_reward = some referee_reward_amount;
              })
              db.referrals;
      },
    )

-- The branches on the referral that the lookup found.
unfoldable pub claim_and_grant : Referral → ℕ → Action ⊤
unfolding claim_referral grant_rewards
claim_and_grant ref referee_id = do
  won ← claim_referral ref
  when (leb 1 won) (grant_rewards ref referee_id)

unfoldable pub grant_found_referral : Option Referral → ℕ → Action ⊤
unfolding claim_and_grant
grant_found_referral none referee_id = pure tt
grant_found_referral (some ref) referee_id =
    when (is_pending_referral ref && not (ref.referrer_id == referee_id))
      (claim_and_grant ref referee_id)

-- On the referee's first delivery, credit both parties.
unfoldable pub maybe_grant_referral_reward_within_tx : ℕ → Action ⊤
unfolding grant_found_referral
maybe_grant_referral_reward_within_tx referee_id = do
  ref ← gets (λ db. find referee_key referee_id db.referrals)
  grant_found_referral ref referee_id

abbrev pub is_checkout_spend : WalletTransaction → Bool
is_checkout_spend t = elim t.type [
  | debit ↦ elim t.reason [ checkout_spend ↦ true | _ ↦ false ]
  | credit ↦ false
]

-- The debit of a delivery, if it spent credits.
abbrev pub spend_of : ℕ → List WalletTransaction → Option WalletTransaction
spend_of delivery_id = find_first (λ t. t.delivery_id ==? delivery_id && is_checkout_spend t)

unfoldable pub credit_spend : ℕ → WalletTransaction → Action ⊤
credit_spend delivery_id spend =
    credit_within_tx spend.user_id spend.amount checkout_refund (some delivery_id) none
      (some (refund_of delivery_id))

unfoldable pub refund_spend : ℕ → Option WalletTransaction → Action ⊤
unfolding credit_spend
refund_spend delivery_id none = pure tt
refund_spend delivery_id (some spend) =
    ignore_unique_violation (transaction (credit_spend delivery_id spend))

-- Refund the credits that a terminated delivery had spent.
unfoldable pub refund_for_delivery : ℕ → Action ⊤
unfolding refund_spend
refund_for_delivery delivery_id = do
  spend ← gets (λ db. spend_of delivery_id db.wallet_transactions)
  refund_spend delivery_id spend

abbrev pub is_completed : Payment → Bool
is_completed p = elim p.status [ PaymentStatus.completed ↦ true | _ ↦ false ]

-- The card charge of a delivery that was captured and not refunded.
abbrev pub is_captured : ℕ → Payment → Bool
is_captured delivery_id p = p.delivery_id == delivery_id && is_completed p

-- `tx.payment.updateMany({ where: { deliveryId, status: 'COMPLETED' } })`
unfoldable pub flip_payment : ℕ → Action ℕ
flip_payment delivery_id db = (
  ok (count (is_captured delivery_id) db.payments),
  record db {
    payments =
        update_many (is_captured delivery_id) (λ p. record p { status = PaymentStatus.refunded })
          db.payments;
  },
)

unfoldable pub credit_charge : ℕ → ℕ → ℕ → Action ⊤
credit_charge delivery_id user_id price =
    credit_within_tx user_id price checkout_refund (some delivery_id) none
      (some (exception_refund_of delivery_id))

-- Flip the payment, and credit the wallet only if that flip won.
unfoldable pub flip_and_credit : ℕ → ℕ → ℕ → Action ⊤
unfolding flip_payment credit_charge
flip_and_credit delivery_id user_id price = do
  flipped ← flip_payment delivery_id
  when (leb 1 flipped) (credit_charge delivery_id user_id price)

-- Return the card-charged part of a terminated delivery to the wallet.
unfoldable pub refund_charge : ℕ → ℕ → ℕ → Action ⊤
unfolding flip_and_credit
refund_charge delivery_id user_id price =
    ignore_unique_violation (transaction (flip_and_credit delivery_id user_id price))

-- A delivery that charged nothing, or is not there, has nothing to return.
unfoldable pub refund_found_charge : ℕ → Option Delivery → Action ⊤
refund_found_charge delivery_id none = pure tt
refund_found_charge delivery_id (some d) =
    when (leb 1 d.estimated_price) (refund_charge delivery_id d.user_id d.estimated_price)

unfoldable pub refund_charge_to_wallet : ℕ → Action ⊤
unfolding refund_found_charge
refund_charge_to_wallet delivery_id = do
  delivery ← gets (λ db. find delivery_key delivery_id db.deliveries)
  refund_found_charge delivery_id delivery
