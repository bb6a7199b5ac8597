-- ===== src/Orphans/Returns.antt =====
-- What src/deliveries/orphan-reaper does for the order of a booking that crashed after it took credits.
use drovery_backend.Base.{ℕ, ◌+◌, true, false, none, some, ◌≡◌, refl, ◌==?◌, arith, ap, sym, ◌∙◌}
use drovery_backend.Base.Table.{find, find_first}
use drovery_backend.Store.{
  Db, User, user_key, WalletTransaction, debit_of, refund_of, Result, ⊤, continue_with, err, ok,
  pure,
}
use drovery_backend.Wallet.{
  refund_for_delivery, refund_spend, spend_of, debit_within_tx, key_uses, balance_or_zero,
}
use drovery_backend.Wallet.Reconcile.{IsReconciled, balance, debit_covered}
use drovery_backend.Promo.{is_held_by}
use drovery_backend.Orphans.Debited.{
  IsDebitRow, debited_row, later_row, refund_returned, skipped, not_a_refund,
}
use drovery_backend.Orphans.Defs.{
  has_delivery, needs_refund, needs_release, compensate, reap_if_orphan, refund_made,
}

pub reap_refunds :
    (id : ℕ) (x : Db)
    → has_delivery id x ≡ false
    → needs_refund id x ≡ true
    → needs_release id x ≡ false
    → (refund_for_delivery id x).0 ≡ ok tt
    → reap_if_orphan id x ≡ (ok true, (refund_for_delivery id x).1)
unfolding reap_if_orphan compensate
reap_refunds id x a b c h = rw (a, b, c) (finished (refund_for_delivery id x) h)
  where
    finished :
        (o : Result ⊤ × Db)
        → o.0 ≡ ok tt
        → continue_with (λ _. pure true) (continue_with (λ _. pure tt) o) ≡ (ok true, o.1)
    finished (ok a, y) h = refl
    finished (err e, y) h = cc

-- The order of a booking whose delivery was never written: the credits were taken, under its key, and
-- nothing else of it is in the ledger or among the redemptions.
pub record IsStranded (id : ℕ) (db : Db) : Type 0 where
  pub unwritten : has_delivery id db ≡ false
  pub unspent : spend_of id db.wallet_transactions ≡ none
  pub unrefunded : refund_made id db.wallet_transactions ≡ none
  pub unkeyed : key_uses (some (refund_of id)) db.wallet_transactions ≡ 0
  pub unredeemed : find_first (is_held_by id) db.redemptions ≡ none

module _ (uid amount id later : ℕ) (db : Db) (reconciled : IsReconciled db)
    (stranded : IsStranded id db)
    (spent : (debit_within_tx uid amount id (some (debit_of id)) db).0 ≡ ok tt) where
  -- The process ended after the debit, and time has passed since.
  abbrev pub crashed : Db
  crashed = record (debit_within_tx uid amount id (some (debit_of id)) db).1 { now = later }

  pub crashed_row : (t : WalletTransaction) × IsDebitRow uid amount id db crashed t
  crashed_row =
      let (t, r) = debited_row uid amount id db reconciled.keyed spent in
      (t, later_row uid amount id later db _ t r)

  pub found_spend :
      (t : WalletTransaction)
      → IsDebitRow uid amount id db crashed t
      → (spend_of id crashed.wallet_transactions ≡ some t)
        × (refund_made id crashed.wallet_transactions ≡ none)
        × (key_uses (some (refund_of id)) crashed.wallet_transactions ≡ 0)
  found_spend t r = rw r.on_top (
    rw (r.of_delivery, r.is_spend) (ground arith),
    rw (not_a_refund t r.is_spend) (skipped (t.delivery_id ==? id) _ _ ∙ stranded.unrefunded),
    rw r.keyed_by (ground (arith, stranded.unkeyed)),
  )

  abbrev pub refunded : Result ⊤ × Db
  refunded = refund_for_delivery id crashed

  pub repaid : (refunded.0 ≡ ok tt) × (balance uid refunded.1 ≡ balance uid db)
  unfolding refund_for_delivery
  repaid =
      let (t, r) = crashed_row in
      let (spend, none_yet, free) = found_spend t r in
      let (u, pays) = r.payer in
      let (done, raised, made) =
        refund_returned t id crashed u (rw r.of_user pays) r.still_keyed free in
      rw spend (done, balance_back t u r pays raised)
    where
      balance_back :
          (t : WalletTransaction) (u : User)
          → IsDebitRow uid amount id db crashed t
          → find user_key uid crashed.users ≡ some u
          → balance t.user_id (refund_spend id (some t) crashed).1 ≡ u.credit_balance + t.amount
          → balance uid (refund_spend id (some t) crashed).1 ≡ balance uid db
      balance_back t u r pays raised =
          ap (λ i. balance i (refund_spend id (some t) crashed).1) (sym r.of_user)
          ∙ raised
          ∙ ap (λ a. u.credit_balance + a) r.of_amount
          ∙ ap (λ o. balance_or_zero o + amount) (sym pays)
          ∙ debit_covered uid amount id (some (debit_of id)) db reconciled spent

  pub still_unwritten : has_delivery id crashed ≡ false
  still_unwritten = let (t, r) = crashed_row in rw r.same_deliveries stranded.unwritten

  still_unredeemed : needs_release id crashed ≡ false
  still_unredeemed = let (t, r) = crashed_row in rw (r.same_redemptions, stranded.unredeemed) refl

  -- The compensation of such an order refunds the spend, and does nothing else.
  pub reaped_crash : reap_if_orphan id crashed ≡ (ok true, refunded.1)
  reaped_crash =
      let (t, r) = crashed_row in
      let (spend, none_yet, free) = found_spend t r in
      reap_refunds id crashed still_unwritten (rw (spend, none_yet) refl) still_unredeemed repaid.0
