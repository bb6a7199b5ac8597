-- ===== src/Orphans/Defs.antt =====
-- `sweep` and `reapIfOrphan` of src/deliveries/orphan-reaper/orphan-reaper.service.ts, with the limits
-- of orphan-reaper.constants.ts.
use drovery_backend.Base.{
  ℕ, ◌+◌, Bool, true, false, not, Option, none, some, List, [], ◌∷◌, ◌++◌, ◌&&◌, ◌==◌, ◌==?◌, leb,
  ltb, is_some, map, filter, take, if◌then◌else◌,
}
use drovery_backend.Base.Table.{find_first, find}
use drovery_backend.Store.{
  Db, delivery_key, WalletTransaction, checkout_refund, PromoRedemption, Action, ⊤, pure, gets,
  when, best_effort, ◌>>=◌, ◌>>◌,
}
use drovery_backend.Wallet.{is_checkout_spend, refund_for_delivery, spend_of}
use drovery_backend.Promo.{is_redeemed, is_held_by, release_for_delivery}
use drovery_backend.Dispatch.{sort_by}

abbrev pub orphan_grace : ℕ
orphan_grace = 600000

abbrev pub orphan_lookback : ℕ
orphan_lookback = 86400000

abbrev pub orphan_batch : ℕ
orphan_batch = 500

-- `>= lower AND < upper`
abbrev pub is_in_window : ℕ → ℕ → Bool
is_in_window now t = leb now (t + orphan_grace + orphan_lookback) && ltb (t + orphan_grace) now

abbrev pub has_delivery : ℕ → Db → Bool
has_delivery id db = is_some (find delivery_key id db.deliveries)

abbrev pub is_checkout_refund : WalletTransaction → Bool
is_checkout_refund t = elim t.reason [ checkout_refund ↦ true | _ ↦ false ]

-- `findFirst({ where: { deliveryId, reason: 'CHECKOUT_REFUND' } })`
abbrev pub refund_made : ℕ → List WalletTransaction → Option WalletTransaction
refund_made id = find_first (λ t. t.delivery_id ==? id && is_checkout_refund t)

-- The delivery's id of a row, or an id that is never looked at.
abbrev pub id_of : WalletTransaction → List ℕ
id_of t = elim t.delivery_id [ none ↦ [] | some id ↦ id ∷ [] ]

abbrev pub concat_ids : List WalletTransaction → List ℕ
concat_ids [] = []
concat_ids (t ∷ ts) = id_of t ++ concat_ids ts

-- A spend without a delivery, and without a refund, in the window.
abbrev pub is_orphaned : Db → ℕ → Bool
is_orphaned db id =
    not (has_delivery id db) && not (is_some (refund_made id db.wallet_transactions))

abbrev pub is_orphaned_debit : Db → WalletTransaction → Bool
is_orphaned_debit db t =
    is_checkout_spend t
    && (is_in_window db.now t.created_at
        && elim t.delivery_id [ none ↦ false | some id ↦ is_orphaned db id ])

unfoldable pub orphaned_debits : Db → List ℕ
orphaned_debits db = concat_ids (
    take orphan_batch (
      sort_by (λ a b. leb a.created_at b.created_at)
        (filter (is_orphaned_debit db) db.wallet_transactions)))

abbrev pub is_orphaned_redemption : Db → PromoRedemption → Bool
is_orphaned_redemption db r =
    is_redeemed r && (is_in_window db.now r.redeemed_at && not (has_delivery r.delivery_id db))

unfoldable pub orphaned_redemptions : Db → List ℕ
orphaned_redemptions db =
    map (λ (r : PromoRedemption). r.delivery_id)
      (take orphan_batch (
        sort_by (λ a b. leb a.redeemed_at b.redeemed_at)
          (filter (is_orphaned_redemption db) db.redemptions)))

-- `[...new Set(xs)]`
unfoldable pub distinct : List ℕ → List ℕ
distinct [] = []
distinct (x ∷ xs) = x ∷ filter (λ y. not (y == x)) (distinct xs)

abbrev pub needs_refund : ℕ → Db → Bool
needs_refund id db =
    is_some (spend_of id db.wallet_transactions)
    && not (is_some (refund_made id db.wallet_transactions))

abbrev pub needs_release : ℕ → Db → Bool
needs_release id db = is_some (find_first (is_held_by id) db.redemptions)

-- What was read decides, before either compensation is made.
unfoldable pub compensate : ℕ → Bool → Bool → Action Bool
compensate id refund release =
    if not refund && not release
    then pure false
    else when refund (refund_for_delivery id) >> when release (release_for_delivery id) >> pure true

-- Only while the delivery does not exist, which is read again.
unfoldable pub reap_if_orphan : ℕ → Action Bool
unfolding compensate
reap_if_orphan id = do
  exists ← gets (has_delivery id)
  refund ← gets (needs_refund id)
  release ← gets (needs_release id)
  if exists then pure false else compensate id refund release

-- A candidate that fails does not stop the sweep.
unfoldable pub reap_orphans : List ℕ → Action ⊤
unfolding reap_if_orphan
reap_orphans [] = pure tt
reap_orphans (id ∷ ids) = best_effort (reap_if_orphan id) >> reap_orphans ids

unfoldable pub sweep : Action ⊤
unfolding reap_orphans orphaned_debits orphaned_redemptions distinct
sweep = do
  ids ← gets (λ db. distinct (orphaned_debits db ++ orphaned_redemptions db))
  reap_orphans ids
