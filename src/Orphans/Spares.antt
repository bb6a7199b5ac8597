-- ===== src/Orphans/Spares.antt =====
-- The sweep of src/deliveries/orphan-reaper leaves the reservations of a delivery that exists.
use drovery_backend.Base.{
  ℕ, true, false, Option, none, some, List, [], ◌∷◌, ◌≡◌, ◌≢◌, refl, ◌==◌, ◌==?◌, filter, is_some,
  Bool-cases, inl, inr, arith, leb, ◌∙◌,
}
use drovery_backend.Base.Table.{count, find, find_first, update_many}
use drovery_backend.Store.{Db, delivery_key, WalletTransaction, PromoRedemption, released, pure}
use drovery_backend.Store.Invariants.{Keeps, ite_Keeps}
use drovery_backend.Wallet.{refund_for_delivery, refund_spend, credit_within_tx}
use drovery_backend.Wallet.Frame.{refund_for_delivery-frame}
use drovery_backend.Promo.{
  is_held_by, release_for_delivery, release_found, flip_and_decrement, flip_redemption,
  decrement_counter,
}
use drovery_backend.Promo.Frame.{release_for_delivery-frame}
use drovery_backend.Orphans.Defs.{
  has_delivery, needs_refund, needs_release, compensate, reap_if_orphan, reap_orphans,
}
use drovery_backend.Orphans.Kept.{compensate-Keeps}

abbrev pub spends_of : ℕ → Db → List WalletTransaction
spends_of id db = filter (λ (t : WalletTransaction). t.delivery_id ==? id) db.wallet_transactions

abbrev pub redemptions_of : ℕ → Db → List PromoRedemption
redemptions_of id db = filter (λ (r : PromoRedemption). r.delivery_id == id) db.redemptions

module _ (id j : ℕ) (other : j ≢ id) where
  refund-spends_of : (db : Db) → spends_of id (refund_for_delivery j db).1 ≡ spends_of id db
  unfolding refund_for_delivery refund_spend credit_within_tx
  refund-spends_of db = ground (arith, other)

  filter-flipped :
      (now : ℕ) (rs : List PromoRedemption)
      → filter
          (λ (r : PromoRedemption). r.delivery_id == id)
          (update_many
            (is_held_by j)
            (λ r. record r { status = released; released_at = some now })
            rs)
        ≡ filter (λ (r : PromoRedemption). r.delivery_id == id) rs
  filter-flipped now [] = refl
  filter-flipped now (r ∷ rs) = ground (arith, other, filter-flipped now rs)

  found-redemptions_of :
      (o : Option PromoRedemption) (db : Db)
      → redemptions_of id (release_found j o db).1 ≡ redemptions_of id db
  unfolding release_found flip_and_decrement flip_redemption decrement_counter
  found-redemptions_of none db = refl
  found-redemptions_of (some r) db =
      elim (Bool-cases (leb 1 (count (is_held_by j) db.redemptions))) [
        | inl e ↦ rw e (filter-flipped db.now db.redemptions)
        | inr e ↦ rw e (filter-flipped db.now db.redemptions)
      ]

  release-redemptions_of :
      (db : Db) → redemptions_of id (release_for_delivery j db).1 ≡ redemptions_of id db
  unfolding release_for_delivery
  release-redemptions_of db = found-redemptions_of (find_first (is_held_by j) db.redemptions) db

-- The delivery exists, with these spends, refunds and redemptions.
record IsBacked (id : ℕ) (ts : List WalletTransaction) (rs : List PromoRedemption) (db : Db)
    : Type 0 where
  exists : has_delivery id db ≡ true
  spent : spends_of id db ≡ ts
  redeemed_as : redemptions_of id db ≡ rs

module _ (id : ℕ) (ts : List WalletTransaction) (rs : List PromoRedemption) where
  abbrev Backed : Db → Type 0
  Backed = IsBacked id ts rs

  refund-Backed : (j : ℕ) → j ≢ id → Keeps Backed (refund_for_delivery j)
  refund-Backed j other db h = record {
    exists =
        refund_for_delivery-frame (λ r. is_some (find delivery_key id r.deliveries) ≡ true) j db
          h.exists;
    spent = refund-spends_of id j other db ∙ h.spent;
    redeemed_as =
        refund_for_delivery-frame
          (λ r. filter (λ (x : PromoRedemption). x.delivery_id == id) r.redemptions ≡ rs) j db
          h.redeemed_as;
  }

  release-Backed : (j : ℕ) → j ≢ id → Keeps Backed (release_for_delivery j)
  release-Backed j other db h = record {
    exists =
        release_for_delivery-frame (λ r. is_some (find delivery_key id r.deliveries) ≡ true) j db
          h.exists;
    spent =
        release_for_delivery-frame
          (λ r. filter (λ (t : WalletTransaction). t.delivery_id ==? id) r.wallet_transactions ≡ ts)
          j db h.spent;
    redeemed_as = release-redemptions_of id j other db ∙ h.redeemed_as;
  }

  reap-Backed : (j : ℕ) → Keeps Backed (reap_if_orphan j)
  unfolding reap_if_orphan
  reap-Backed j db h = elim (Bool-cases (j == id)) [
    | inl e ↦ let same : j ≡ id = ground arith in rw (same, h.exists) h
    | inr e ↦
        let other : j ≢ id = λ q. ground (arith, q) in
        ite_Keeps Backed (has_delivery j db) (pure false)
          (compensate j (needs_refund j db) (needs_release j db)) (λ x k. k)
          (compensate-Keeps Backed j (refund-Backed j other) (release-Backed j other)
            (needs_refund j db) (needs_release j db))
          db h
  ]

  reap_orphans-Backed : (ids : List ℕ) → Keeps Backed (reap_orphans ids)
  unfolding reap_orphans
  reap_orphans-Backed [] db h = h
  reap_orphans-Backed (j ∷ ids) db h = reap_orphans-Backed ids _ (reap-Backed j db h)

-- However old the list of candidates is, a delivery that exists keeps its rows in the ledger and its
-- redemption: none of its reservations is given back, and none is added.
pub reaper_spares :
    (ids : List ℕ) (id : ℕ) (db : Db)
    → has_delivery id db ≡ true
    → let after = (reap_orphans ids db).1 in
      (spends_of id after ≡ spends_of id db) × (redemptions_of id after ≡ redemptions_of id db)
reaper_spares ids id db h =
    let backed =
      reap_orphans-Backed id (spends_of id db) (redemptions_of id db) ids db
        (record { exists = h; spent = refl; redeemed_as = refl }) in
    (backed.spent, backed.redeemed_as)
