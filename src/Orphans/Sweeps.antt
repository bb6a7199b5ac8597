-- ===== src/Orphans/Sweeps.antt =====
-- The sweep of src/deliveries/orphan-reaper finds the booking that crashed after it took the credits,
-- and gives them back.
use drovery_backend.Base.{
  ℕ, ◌+◌, ◌<◌, ◌≤◌, Bool, true, false, some, List, [], ◌∷◌, ◌≡◌, refl, ◌&&◌, ap, take, leb, is_some,
  arith, filter, ◌∙◌, Option-cases, inl, inr,
}
use drovery_backend.Base.Table.{count}
use drovery_backend.Store.{Db, WalletTransaction, PromoRedemption, debit_of, ok}
use drovery_backend.Wallet.{
  debit_within_tx, refund_for_delivery, refund_spend, spend_of, is_checkout_spend,
}
use drovery_backend.Wallet.Reconcile.{IsReconciled, balance}
use drovery_backend.Wallet.Frame.{refund_for_delivery-frame}
use drovery_backend.Dispatch.{sort_by}
use drovery_backend.Orphans.Debited.{IsDebitRow, refund_row, refund_returned}
use drovery_backend.Orphans.Defs.{
  has_delivery, is_in_window, is_orphaned, is_orphaned_debit, is_orphaned_redemption, concat_ids,
  orphan_batch, orphaned_debits, orphaned_redemptions, distinct, reap_if_orphan, reap_orphans,
  refund_made, sweep,
}
use drovery_backend.Orphans.Returns.{
  IsStranded, crashed, crashed_row, found_spend, refunded, still_unwritten, repaid, reaped_crash,
}

filter-none : {A : Type 0} (p : A → Bool) (xs : List A) → count p xs ≡ 0 → filter p xs ≡ []
filter-none p [] h = refl
filter-none p (x ∷ xs) h = ground (arith, filter-none p xs)

count-implied :
    {A : Type 0} (p q : A → Bool) (xs : List A)
    → ((x : A) → p x ≡ true → q x ≡ true)
    → count q xs ≡ 0
    → count p xs ≡ 0
count-implied p q [] h none_q = refl
count-implied p q (x ∷ xs) h none_q = ground (arith, h x, count-implied p q xs h)

-- The database `y` has the clock, the deliveries and the redemptions of `x`, and the refunds of `x` at
-- least.
record Extends (x y : Db) : Type 0 where
  same_now : y.now ≡ x.now
  same_deliveries : y.deliveries ≡ x.deliveries
  same_redemptions : y.redemptions ≡ x.redemptions
  has_refunds :
      (id : ℕ)
      → is_some (refund_made id y.wallet_transactions) ≡ false
      → is_some (refund_made id x.wallet_transactions) ≡ false

pair_orphaned :
    (x y : Db) (spend window : Bool) (id : ℕ)
    → Extends x y
    → spend && (window && is_orphaned y id) ≡ true
    → spend && (window && is_orphaned x id) ≡ true
pair_orphaned x y spend window id e h =
    let same : has_delivery id y ≡ has_delivery id x = rw e.same_deliveries refl in
    ground (arith, e.has_refunds id)

below :
    (i : ℕ) (t : WalletTransaction) (ts : List WalletTransaction)
    → is_some (refund_made i (t ∷ ts)) ≡ false
    → is_some (refund_made i ts) ≡ false
below i t ts h = ground arith

debit_orphaned :
    (x y : Db)
    → Extends x y
    → (t : WalletTransaction) → is_orphaned_debit y t ≡ true
    → is_orphaned_debit x t ≡ true
debit_orphaned x y e t h = elim (Option-cases t.delivery_id) [
  | inl n ↦ absurd (never (is_checkout_spend t) (is_in_window y.now t.created_at) (rw n at h))
  | inr (id, n) ↦ rw n (
      pair_orphaned x y (is_checkout_spend t) (is_in_window x.now t.created_at) id e
        (rw (n, e.same_now) at h))
]
  where
    never : (a b : Bool) → a && (b && false) ≡ true → ⊥
    never a b h = ground arith

redemption_orphaned :
    (x y : Db)
    → Extends x y
    → (r : PromoRedemption) → is_orphaned_redemption y r ≡ true
    → is_orphaned_redemption x r ≡ true
redemption_orphaned x y e r h = rw (e.same_now, e.same_deliveries) at h

-- No booking is orphaned: the sweep has no candidate.
pub record HasNoOrphan (db : Db) : Type 0 where
  pub debits : count (is_orphaned_debit db) db.wallet_transactions ≡ 0
  pub redemptions : count (is_orphaned_redemption db) db.redemptions ≡ 0

no_redemptions : (x y : Db) → Extends x y → HasNoOrphan x → orphaned_redemptions y ≡ []
unfolding orphaned_redemptions sort_by
no_redemptions x y e h =
    rw
      (
        e.same_redemptions,
        filter-none (is_orphaned_redemption y) x.redemptions (
            count-implied (is_orphaned_redemption y) (is_orphaned_redemption x) x.redemptions
              (redemption_orphaned x y e) h.redemptions),
      )
      refl

old_debits :
    (x y : Db) → Extends x y → HasNoOrphan x → count (is_orphaned_debit y) x.wallet_transactions ≡ 0
old_debits x y e h =
    count-implied (is_orphaned_debit y) (is_orphaned_debit x) x.wallet_transactions
      (debit_orphaned x y e) h.debits

-- One row of the ledger that is a candidate, and no other.
candidate :
    (x : Db) (id : ℕ) (t : WalletTransaction) (old : List WalletTransaction)
    → x.wallet_transactions ≡ t ∷ old
    → t.delivery_id ≡ some id
    → is_orphaned_debit x t ≡ true
    → count (is_orphaned_debit x) old ≡ 0
    → orphaned_debits x ≡ id ∷ []
unfolding orphaned_debits sort_by
candidate x id t old top of_delivery hit rest =
    ap
      (λ xs. concat_ids (
        take orphan_batch (
          sort_by (λ (a b : WalletTransaction). leb a.created_at b.created_at)
            (filter (is_orphaned_debit x) xs))))
      top
    ∙ rw (hit, filter-none (is_orphaned_debit x) old rest, of_delivery) refl

no_candidate :
    (x : Db) (xs : List WalletTransaction)
    → x.wallet_transactions ≡ xs
    → count (is_orphaned_debit x) xs ≡ 0
    → orphaned_debits x ≡ []
unfolding orphaned_debits sort_by
no_candidate x xs same rest =
    ap
      (λ ys. concat_ids (
        take orphan_batch (
          sort_by (λ (a b : WalletTransaction). leb a.created_at b.created_at)
            (filter (is_orphaned_debit x) ys))))
      same
    ∙ rw (filter-none (is_orphaned_debit x) xs rest) refl

-- One candidate: the sweep compensates it, and reports nothing.
sweep_one :
    (id : ℕ) (x : Db)
    → orphaned_debits x ≡ id ∷ []
    → orphaned_redemptions x ≡ []
    → sweep x ≡ (ok tt, (reap_if_orphan id x).1)
unfolding sweep reap_orphans distinct
sweep_one id x d r = rw (d, r) refl

sweep_idle : (x : Db) → orphaned_debits x ≡ [] → orphaned_redemptions x ≡ [] → sweep x ≡ (ok tt, x)
unfolding sweep reap_orphans distinct
sweep_idle x d r = rw (d, r) refl

refunds_spend :
    (id : ℕ) (x : Db) (t : WalletTransaction)
    → spend_of id x.wallet_transactions ≡ some t
    → refund_for_delivery id x ≡ refund_spend id (some t) x
unfolding refund_for_delivery
refunds_spend id x t e = rw e refl

module _ (uid amount id later : ℕ) (db : Db) (reconciled : IsReconciled db)
    (stranded : IsStranded id db)
    (spent : (debit_within_tx uid amount id (some (debit_of id)) db).0 ≡ ok tt)
    (past : db.now + 600000 < later) (in_time : later ≤ db.now + 87000000)
    (alone : HasNoOrphan (record db { now = later })) where
  abbrev crash : Db
  crash = crashed uid amount id later db reconciled stranded spent

  abbrev fixed : Db
  fixed = (refunded uid amount id later db reconciled stranded spent).1

  row_of_crash : (t : WalletTransaction) × IsDebitRow uid amount id db crash t
  row_of_crash = crashed_row uid amount id later db reconciled stranded spent

  crash-Extends :
      (t : WalletTransaction)
      → IsDebitRow uid amount id db crash t
      → Extends (record db { now = later }) crash
  crash-Extends t r = record {
    same_now = refl;
    same_deliveries = r.same_deliveries;
    same_redemptions = r.same_redemptions;
    has_refunds = λ i h. below i t db.wallet_transactions (rw r.on_top at h);
  }

  found_debits :
      (t : WalletTransaction)
      → IsDebitRow uid amount id db crash t
      → orphaned_debits crash ≡ id ∷ []
  found_debits t r =
      let (spend, none_yet, free) =
        found_spend uid amount id later db reconciled stranded spent t r in
      let gone = (still_unwritten uid amount id later db reconciled stranded spent) in
      let due : is_in_window later db.now ≡ true = ground arith in
      candidate crash id t db.wallet_transactions r.on_top r.of_delivery
        (rw (r.is_spend, r.at_once, due, r.of_delivery, gone, none_yet) refl)
        (old_debits (record db { now = later }) crash (crash-Extends t r) alone)

  -- The row of the refund, on top of the ledger.
  record IsRepaid (t w : WalletTransaction) : Type 0 where
    on_top : fixed.wallet_transactions ≡ w ∷ t ∷ db.wallet_transactions
    is_no_spend : is_checkout_spend w ≡ false
    made : is_some (refund_made id fixed.wallet_transactions) ≡ true

  debit-IsRepaid :
      (t : WalletTransaction)
      → IsDebitRow uid amount id db crash t
      → (w : WalletTransaction) × IsRepaid t w
  debit-IsRepaid t r =
      let (spend, none_yet, free) =
        found_spend uid amount id later db reconciled stranded spent t r in
      let (u, pays) = r.payer in
      let (w, top, no_spend) = refund_row t id crash u (rw r.of_user pays) r.still_keyed free in
      let (done, raised, made) =
        refund_returned t id crash u (rw r.of_user pays) r.still_keyed free in
      (
        w,
        record {
          on_top =
              ap (λ o. o.1.wallet_transactions) (refunds_spend id crash t spend)
              ∙ top
              ∙ ap (λ xs. w ∷ xs) r.on_top;
          is_no_spend = no_spend;
          made =
              ap (λ o. is_some (refund_made id o.1.wallet_transactions))
                (refunds_spend id crash t spend)
              ∙ made;
        },
      )

  fixed-Extends :
      (t w : WalletTransaction)
      → IsDebitRow uid amount id db crash t
      → IsRepaid t w
      → Extends (record db { now = later }) fixed
  fixed-Extends t w r p = record {
    same_now = refund_for_delivery-frame (λ x. x.now ≡ later) id crash refl;
    same_deliveries =
        refund_for_delivery-frame (λ x. x.deliveries ≡ db.deliveries) id crash r.same_deliveries;
    same_redemptions =
        refund_for_delivery-frame (λ x. x.redemptions ≡ db.redemptions) id crash r.same_redemptions;
    has_refunds = λ i h.
        below i t db.wallet_transactions
          (below i w (t ∷ db.wallet_transactions) (rw p.on_top at h));
  }

  settled_debit :
      (t w : WalletTransaction)
      → IsDebitRow uid amount id db crash t
      → IsRepaid t w
      → count (is_orphaned_debit fixed) (w ∷ t ∷ db.wallet_transactions) ≡ 0
  settled_debit t w r p =
      let old = old_debits (record db { now = later }) fixed (fixed-Extends t w r p) alone in
      let of_t : is_orphaned fixed id ≡ false = rw p.made (ground arith) in
      rw (p.is_no_spend, r.of_delivery, of_t) (ground (arith, old))

  -- A booking that crashed after it took the credits, and before its delivery was written, gets them
  -- back from the first sweep that runs more than ten minutes and at most a day and ten minutes after,
  -- where the ledger was reconciled, the booking had no spend, refund or redemption before, and no
  -- other booking is orphaned: the balance is what it was before the debit. The next sweep, at the same
  -- time, changes nothing.
  pub sweep_repays :
      let after = (sweep crash).1 in
      ((sweep crash).0 ≡ ok tt)
      × (balance uid after ≡ balance uid db)
      × (sweep after ≡ (ok tt, after))
  sweep_repays =
      let before = record db { now = later } in
      let (t, r) = row_of_crash in
      let (w, p) = debit-IsRepaid t r in
      let swept : sweep crash ≡ (ok tt, fixed) =
        sweep_one id crash (found_debits t r)
          (no_redemptions before crash (crash-Extends t r) alone)
        ∙ ap (λ o. (ok tt, o.1)) (reaped_crash uid amount id later db reconciled stranded spent) in
      rw swept (
        refl,
        (repaid uid amount id later db reconciled stranded spent).1,
        sweep_idle fixed
            (no_candidate fixed (w ∷ t ∷ db.wallet_transactions) p.on_top (settled_debit t w r p))
            (no_redemptions before fixed (fixed-Extends t w r p) alone),
      )
