-- ===== src/Promo/Release.antt =====
-- The release of a redemption in src/promo/promo.service.ts.
use drovery_backend.Base.{
  ℕ, ◌+◌, ◌≤◌, ◌≡◌, ◌≢◌, refl, ap, none, some, List, [], ◌∷◌, arith, ltb, if◌then◌else◌, All, inl,
  inr, Option-cases, Bool-cases,
}
use drovery_backend.Base.Table.{
  find, at, count, matches, update_many, find-update_at, count-at, IsKeyed, IsKeyed-update_many,
  find_first, count-update_many_falsified, find_first-count_zero, find_first_meets,
  update_many-count_zero,
}
use drovery_backend.Store.{Db, PromoCode, code_key, PromoRedemption, released, ok}
use drovery_backend.Promo.Defs.{
  DiscountResult, is_open, take_slot, return_slot, release_for_delivery, release_found,
  is_redemption_of, is_held_by, redeem_within_tx,
}
use drovery_backend.Promo.Cap.{is_active_for, times_of, IsCounted}

abbrev release_row : ℕ → PromoRedemption → PromoRedemption
release_row now r = record r { status = released; released_at = some now }

release_found-none :
    (did : ℕ) (r : PromoRedemption) (db : Db)
    → find_first (is_held_by did) (release_found did (some r) db).1.redemptions ≡ none
unfolding release_found
release_found-none did r db = ground (
  arith,
  find_first-count_zero (is_held_by did)
      (update_many (is_held_by did) (release_row db.now) db.redemptions)
      (count-update_many_falsified (is_held_by did) (release_row db.now) db.redemptions
        (λ x h. ground arith)),
)

-- A release takes effect once: a second call changes nothing.
pub release_idempotent :
    (did : ℕ) (db : Db)
    → (release_for_delivery did (release_for_delivery did db).1).1 ≡ (release_for_delivery did db).1
unfolding release_for_delivery
release_idempotent did db = elim (Option-cases (find_first (is_held_by did) db.redemptions)) [
  | inl e ↦ ground arith
  | inr (r, e) ↦ rw (e, release_found-none did r db)
]

abbrev pub redemption_key : PromoRedemption → ℕ
redemption_key r = r.delivery_id

held_absent :
    (did : ℕ) (xs : List PromoRedemption)
    → All (λ r. r.delivery_id ≢ did) xs
    → count (is_held_by did) xs ≡ 0
held_absent did [] h = refl
held_absent did (x ∷ xs) h = ground (arith, h.0, held_absent did xs h.1)

-- The release takes one active redemption off the code of the row that it found, and off no other.
active-release :
    (did now k : ℕ) (xs : List PromoRedemption)
    → IsKeyed redemption_key xs
    → count (is_active_for k) (update_many (is_held_by did) (release_row now) xs)
        + matches (is_active_for k) (find_first (is_held_by did) xs)
      ≡ count (is_active_for k) xs
active-release did now k [] h = refl
active-release did now k (x ∷ xs) h = elim (Bool-cases (is_held_by did x)) [
  | inr e ↦ ground (arith, active-release did now k xs h.1)
  | inl e ↦
      let same : x.delivery_id ≡ did = ground arith in
      ground (
        arith,
        update_many-count_zero (is_held_by did) (release_row now) xs
            (held_absent did xs (rw same at h.0)),
      )
]

redemptions-release-le :
    (did now k uid : ℕ) (xs : List PromoRedemption)
    → count (is_redemption_of k uid) (update_many (is_held_by did) (release_row now) xs)
      ≤ count (is_redemption_of k uid) xs
redemptions-release-le did now k uid [] = omega arith
redemptions-release-le did now k uid (x ∷ xs) =
    ground (arith, redemptions-release-le did now k uid xs)

found_counted :
    (did : ℕ) (xs : List PromoRedemption) {r : PromoRedemption}
    → find_first (is_held_by did) xs ≡ some r
    → (1 ≤ count (is_held_by did) xs) × (1 ≤ count (is_active_for r.promo_code_id) xs)
found_counted did [] e = cc
found_counted did (x ∷ xs) {r} e = ground (arith, found_counted did xs {r = r})

module _ (did : ℕ) (db : Db) (h : IsCounted db) (unique : IsKeyed redemption_key db.redemptions)
    (r : PromoRedemption) (e : find_first (is_held_by did) db.redemptions ≡ some r) where
  release-counted :
      (k : ℕ)
      → times_of (find code_key k (release_found did (some r) db).1.promo_codes)
        ≡ count (is_active_for k) (release_found did (some r) db).1.redemptions
  unfolding release_found
  release-counted k =
      let known : matches (is_active_for k) (find_first (is_held_by did) db.redemptions)
          ≡ (if is_active_for k r then 1 else 0) =
        ap (matches (is_active_for k)) e in
      ground (
        arith,
        h.counted k,
        known,
        find_first_meets (is_held_by did) db.redemptions e,
        found_counted did db.redemptions e,
        active-release did db.now k db.redemptions unique,
        find-update_at code_key k r.promo_code_id (λ c. ltb 0 c.times_redeemed) return_slot
            db.promo_codes (λ c. refl),
      )

  release-IsKeyed : IsKeyed code_key (release_found did (some r) db).1.promo_codes
  unfolding release_found
  release-IsKeyed = ground (
    arith,
    IsKeyed-update_many code_key (at code_key r.promo_code_id (λ c. ltb 0 c.times_redeemed))
        return_slot db.promo_codes (λ c. refl) h.keyed,
  )

  release-per_user :
      (k u : ℕ) → count (is_redemption_of k u) (release_found did (some r) db).1.redemptions ≤ 1
  unfolding release_found
  release-per_user k u =
      ground (arith, h.per_user k u, redemptions-release-le did db.now k u db.redemptions)

  release_found-IsCounted : IsCounted (release_found did (some r) db).1
  release_found-IsCounted = record {
    keyed = release-IsKeyed;
    counted = release-counted;
    per_user = release-per_user;
  }

-- With one redemption a delivery, a release keeps the counters exact and each user to one active
-- redemption.
pub release-IsCounted :
    (did : ℕ) (db : Db)
    → IsCounted db
    → IsKeyed redemption_key db.redemptions
    → IsCounted (release_for_delivery did db).1
unfolding release_for_delivery release_found
release-IsCounted did db h unique =
    elim (Option-cases (find_first (is_held_by did) db.redemptions)) [
      | inl e ↦ rw e h
      | inr (r, e) ↦ rw e (release_found-IsCounted did db h unique r e)
    ]

-- Taking a slot of an open code and returning it leaves every row as it was.
slot_returned :
    (now id k : ℕ) (xs : List PromoCode)
    → IsKeyed code_key xs
    → 1 ≤ count (at code_key id (is_open now)) xs
    → find code_key k (
        update_many
          (at code_key id (λ c. ltb 0 c.times_redeemed))
          return_slot
          (update_many (at code_key id (is_open now)) take_slot xs))
      ≡ find code_key k xs
slot_returned now id k xs keyed pos =
    let after = update_many (at code_key id (is_open now)) take_slot xs in
    ground (
      arith,
      find-update_at code_key k id (is_open now) take_slot xs (λ c. refl),
      find-update_at code_key k id (λ c. ltb 0 c.times_redeemed) return_slot after (λ c. refl),
      count-at code_key id (is_open now) xs keyed,
    )

module _ (code : PromoCode) (uid did total : ℕ) (d : DiscountResult) (db : Db)
    (e : (redeem_within_tx code uid did total d db).0 ≡ ok tt) where
  redeem_counted_one : 1 ≤ count (at code_key code.id (is_open db.now)) db.promo_codes
  unfolding redeem_within_tx
  redeem_counted_one = ground arith

  redeem_then_release_codes :
      (release_for_delivery did (redeem_within_tx code uid did total d db).1).1.promo_codes
      ≡ update_many
          (at code_key code.id (λ c. ltb 0 c.times_redeemed))
          return_slot
          (update_many (at code_key code.id (is_open db.now)) take_slot db.promo_codes)
  unfolding release_for_delivery redeem_within_tx release_found
  redeem_then_release_codes = ground arith

-- Canceling undoes a redemption: every code's row is as it was before.
pub release-redeem :
    (code : PromoCode) (uid did total k : ℕ) (d : DiscountResult) (db : Db)
    → IsKeyed code_key db.promo_codes
    → (redeem_within_tx code uid did total d db).0 ≡ ok tt
    → find code_key k
        (release_for_delivery did (redeem_within_tx code uid did total d db).1).1.promo_codes
      ≡ find code_key k db.promo_codes
release-redeem code uid did total k d db keyed e =
    rw (redeem_then_release_codes code uid did total d db e) (
      slot_returned db.now code.id k db.promo_codes keyed
        (redeem_counted_one code uid did total d db e))
