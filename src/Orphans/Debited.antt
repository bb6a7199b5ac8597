-- ===== src/Orphans/Debited.antt =====
-- The ledger after the debit of a booking, and after its refund.
use drovery_backend.Base.{
  ℕ, ◌+◌, ◌-◌, Bool, true, false, none, some, List, ◌∷◌, ◌≡◌, refl, ◌&&◌, ◌==◌, is_some, Bool-cases,
  Option-cases, inl, inr, arith, ◌∙◌, if◌then◌else◌, leb,
}
use drovery_backend.Base.Table.{
  at, find, count, update_many, IsKeyed, IsKeyed-update_many, find-update_at, count-at,
}
use drovery_backend.Store.{
  Db, User, user_key, WalletTransaction, debit, credit, checkout_refund, checkout_spend, debit_of,
  refund_of, AppError, err, ok,
}
use drovery_backend.Wallet.{
  refund_spend, credit_spend, credit_within_tx, debit_within_tx, key_uses, is_checkout_spend,
  balance_or_zero,
}
use drovery_backend.Wallet.Reconcile.{balance}
use drovery_backend.Orphans.Defs.{refund_made, is_checkout_refund}

-- A refund whose key is free returns, raises the balance by the spend, and is in the ledger.
pub refund_returned :
    (t : WalletTransaction) (id : ℕ) (db : Db) (u : User)
    → find user_key t.user_id db.users ≡ some u
    → IsKeyed user_key db.users
    → key_uses (some (refund_of id)) db.wallet_transactions ≡ 0
    → let o = refund_spend id (some t) db in
      (o.0 ≡ ok tt)
      × (balance t.user_id o.1 ≡ u.credit_balance + t.amount)
      × (is_some (refund_made id o.1.wallet_transactions) ≡ true)
unfolding refund_spend credit_spend credit_within_tx
refund_returned t id db u found keyed free = ground (
  arith,
  found,
  free,
  find-update_at user_key t.user_id t.user_id (λ u. true)
      (λ u. record u { credit_balance = u.credit_balance + t.amount }) db.users (λ u. refl),
  count-at user_key t.user_id (λ u. true) db.users keyed,
)

-- Such a refund adds one row to the ledger, which is no spend.
pub refund_row :
    (t : WalletTransaction) (id : ℕ) (db : Db) (u : User)
    → find user_key t.user_id db.users ≡ some u
    → IsKeyed user_key db.users
    → key_uses (some (refund_of id)) db.wallet_transactions ≡ 0
    → (w : WalletTransaction) × ((refund_spend id (some t) db).1.wallet_transactions
        ≡ w ∷ db.wallet_transactions)
      × (is_checkout_spend w ≡ false)
unfolding refund_spend credit_spend credit_within_tx
refund_row t id db u found keyed free =
    let one : count (at user_key t.user_id (λ u. true)) db.users ≡ 1 =
      ground (arith, found, count-at user_key t.user_id (λ u. true) db.users keyed) in
    rw (one, free)
      (
        record {
          user_id = t.user_id;
          type = credit;
          reason = checkout_refund;
          amount = t.amount;
          balance_after = balance_or_zero (
              find user_key t.user_id (
                update_many (at user_key t.user_id (λ u. true))
                  (λ u. record u { credit_balance = u.credit_balance + t.amount }) db.users));
          delivery_id = some id;
          referral_id = none;
          idempotency_key = some (refund_of id);
          created_at = db.now;
        },
        refl,
        refl,
      )

-- The ledger's row of a debit that returned.
pub record IsDebitRow (uid amount id : ℕ) (db after : Db) (t : WalletTransaction) : Type 0 where
  pub on_top : after.wallet_transactions ≡ t ∷ db.wallet_transactions
  pub of_user : t.user_id ≡ uid
  pub of_amount : t.amount ≡ amount
  pub of_delivery : t.delivery_id ≡ some id
  pub is_spend : is_checkout_spend t ≡ true
  pub keyed_by : t.idempotency_key ≡ some (debit_of id)
  pub payer : (u : User) × (find user_key uid after.users ≡ some u)
  pub still_keyed : IsKeyed user_key after.users
  pub at_once : t.created_at ≡ db.now
  pub same_deliveries : after.deliveries ≡ db.deliveries
  pub same_redemptions : after.redemptions ≡ db.redemptions

payer_found :
    (uid amount : ℕ) (us : List User)
    → IsKeyed user_key us
    → (count (at user_key uid (λ (u : User). leb amount u.credit_balance)) us == 0) ≡ false
    → (u : User) × (find user_key uid (
          update_many
            (at user_key uid (λ u. leb amount u.credit_balance))
            (λ u. record u { credit_balance = u.credit_balance - amount })
            us)
        ≡ some u)
payer_found uid amount us keyed pays = elim (Option-cases (find user_key uid us)) [
  | inl n ↦
      absurd
        (ground (arith, n, pays, count-at user_key uid (λ u. leb amount u.credit_balance) us keyed))
  | inr (u, n) ↦ (
    if leb amount u.credit_balance
        then record u { credit_balance = u.credit_balance - amount }
        else u,
    find-update_at user_key uid uid (λ u. leb amount u.credit_balance)
          (λ u. record u { credit_balance = u.credit_balance - amount }) us (λ u. refl)
        ∙ rw n (ground arith),
  )
]

pub debited_row :
    (uid amount id : ℕ) (db : Db)
    → IsKeyed user_key db.users
    → (debit_within_tx uid amount id (some (debit_of id)) db).0 ≡ ok tt
    → let after = (debit_within_tx uid amount id (some (debit_of id)) db).1 in
      (t : WalletTransaction) × IsDebitRow uid amount id db after t
unfolding debit_within_tx
debited_row uid amount id db keyed e =
    elim (Bool-cases (count (at user_key uid (λ u. leb amount u.credit_balance)) db.users == 0)) [
      | inl none_pays ↦ absurd (clash (rw none_pays at e))
      | inr pays ↦
          elim (Bool-cases (leb 1 (key_uses (some (debit_of id)) db.wallet_transactions))) [
            | inl used ↦ absurd (clash (rw (pays, used) at e))
            | inr unused ↦
                rw (pays, unused)
                  (
                    record {
                      user_id = uid;
                      type = debit;
                      reason = checkout_spend;
                      amount = amount;
                      balance_after = balance_or_zero (
                          find user_key uid (
                            update_many (at user_key uid (λ u. leb amount u.credit_balance))
                              (λ u. record u { credit_balance = u.credit_balance - amount })
                              db.users));
                      delivery_id = some id;
                      referral_id = none;
                      idempotency_key = some (debit_of id);
                      created_at = db.now;
                    },
                    record {
                      on_top = refl;
                      of_user = refl;
                      of_amount = refl;
                      of_delivery = refl;
                      is_spend = refl;
                      keyed_by = refl;
                      payer = payer_found uid amount db.users keyed pays;
                      still_keyed =
                          IsKeyed-update_many user_key
                            (at user_key uid (λ u. leb amount u.credit_balance))
                            (λ u. record u { credit_balance = u.credit_balance - amount }) db.users
                            (λ u. refl) keyed;
                      at_once = refl;
                      same_deliveries = refl;
                      same_redemptions = refl;
                    },
                  )
          ]
    ]
  where
    clash : {x : AppError} → err x ≡ ok tt → ⊥
    clash k = cc

-- The row stays what it is while the clock runs.
pub later_row :
    (uid amount id n : ℕ) (db after : Db) (t : WalletTransaction)
    → IsDebitRow uid amount id db after t
    → IsDebitRow uid amount id db (record after { now = n }) t
later_row uid amount id n db after t r = record {
  on_top = r.on_top;
  of_user = r.of_user;
  of_amount = r.of_amount;
  of_delivery = r.of_delivery;
  is_spend = r.is_spend;
  keyed_by = r.keyed_by;
  payer = r.payer;
  still_keyed = r.still_keyed;
  at_once = r.at_once;
  same_deliveries = r.same_deliveries;
  same_redemptions = r.same_redemptions;
}

pub skipped : {A : Type 0} (b : Bool) (x y : A) → (if b && false then x else y) ≡ y
skipped true x y = refl
skipped false x y = refl

pub not_a_refund :
    (t : WalletTransaction) → is_checkout_spend t ≡ true → is_checkout_refund t ≡ false
not_a_refund t h = ground arith
