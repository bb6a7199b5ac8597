-- ===== src/Promo/Cap.antt =====
-- The limits on a code of src/promo/promo.service.ts: the global cap, the counter, and one active
-- redemption for each user.
use drovery_backend.Base.{
  ℕ, ◌≤◌, ◌≡◌, refl, Bool, true, ◌&&◌, Option, none, some, arith, ◌==◌, All, ◌↔◌, ◌<◌,
}
use drovery_backend.Base.Table.{
  find, at, count, All-update_many, find-update_at, count-at, IsKeyed, IsKeyed-update_many,
}
use drovery_backend.Store.{Db, PromoCode, code_key, PromoRedemption, ok}
use drovery_backend.Store.Invariants.{Keeps, KeepsOk, AfterOk-intro}
use drovery_backend.Promo.Defs.{
  DiscountResult, is_open, take_slot, is_redeemed, check_code, is_redemption_of, redeem_within_tx,
}

-- No code is redeemed past its cap.
abbrev pub IsUnderCap : PromoCode → Type 0
IsUnderCap c = elim c.max_redemptions [ none ↦ Unit {0} | some m ↦ c.times_redeemed ≤ m ]

abbrev pub RespectsCap : Db → Type 0
RespectsCap db = All IsUnderCap db.promo_codes

take_slot-IsUnderCap :
    (now : ℕ) (code_id : ℕ) (c : PromoCode)
    → IsUnderCap c
    → at code_key code_id (is_open now) c ≡ true
    → IsUnderCap (take_slot c)
take_slot-IsUnderCap now code_id c h e = ground arith

-- A redemption, however it ends, takes no code past its cap.
pub redeem-RespectsCap :
    (code : PromoCode) (uid did total : ℕ) (d : DiscountResult)
    → Keeps RespectsCap (redeem_within_tx code uid did total d)
unfolding redeem_within_tx
redeem-RespectsCap code uid did total d db h = ground (
  arith,
  All-update_many IsUnderCap (at code_key code.id (is_open db.now)) take_slot db.promo_codes
      (take_slot-IsUnderCap db.now code.id) h,
)

abbrev pub is_active_for : ℕ → PromoRedemption → Bool
is_active_for code_id r = r.promo_code_id == code_id && is_redeemed r

abbrev pub times_of : Option PromoCode → ℕ
times_of none = 0
times_of (some c) = c.times_redeemed

-- A code's counter is the number of its active redemptions, and a user has one of them at most.
pub record IsCounted (db : Db) : Type 0 where
  pub keyed : IsKeyed code_key db.promo_codes
  pub counted :
      (k : ℕ) → times_of (find code_key k db.promo_codes) ≡ count (is_active_for k) db.redemptions
  pub per_user : (k uid : ℕ) → count (is_redemption_of k uid) db.redemptions ≤ 1

module _ (code : PromoCode) (uid did total : ℕ) (d : DiscountResult) (db : Db) (h : IsCounted db)
    (e : (redeem_within_tx code uid did total d db).0 ≡ ok tt) where
  redeem-IsKeyed : IsKeyed code_key (redeem_within_tx code uid did total d db).1.promo_codes
  unfolding redeem_within_tx
  redeem-IsKeyed = ground (
    arith,
    IsKeyed-update_many code_key (at code_key code.id (is_open db.now)) take_slot db.promo_codes
        (λ c. refl) h.keyed,
  )

  redeem-counted :
      (k : ℕ)
      → times_of (find code_key k (redeem_within_tx code uid did total d db).1.promo_codes)
        ≡ count (is_active_for k) (redeem_within_tx code uid did total d db).1.redemptions
  unfolding redeem_within_tx
  redeem-counted k = ground (
    arith,
    h.counted k,
    find-update_at code_key k code.id (is_open db.now) take_slot db.promo_codes (λ c. refl),
    count-at code_key code.id (is_open db.now) db.promo_codes h.keyed,
  )

  redeem-per_user :
      (k u : ℕ)
      → count (is_redemption_of k u) (redeem_within_tx code uid did total d db).1.redemptions ≤ 1
  unfolding redeem_within_tx
  redeem-per_user k u = ground (arith, h.per_user k u)

-- A redemption that returns keeps the counters exact and each user to one active redemption.
pub redeem-IsCounted :
    (code : PromoCode) (uid did total : ℕ) (d : DiscountResult)
    → KeepsOk IsCounted (redeem_within_tx code uid did total d)
redeem-IsCounted code uid did total d db h = AfterOk-intro IsCounted _ (λ _ e. record {
  keyed = redeem-IsKeyed code uid did total d db h e;
  counted = redeem-counted code uid did total d db h e;
  per_user = redeem-per_user code uid did total d db h e;
})

-- A code passes the checks exactly when its counter's guard holds, the order reaches the minimum,
-- and the user has redemptions left.
pub check_code_iff :
    (db : Db) (code : PromoCode) (uid total : ℕ)
    → (check_code db (some code) uid total ≡ ok code) ↔ (
        (is_open db.now code ≡ true)
        × (code.min_order_total ≤ total)
        × (count (is_redemption_of code.id uid) db.redemptions < code.per_user_limit))
unfolding check_code
check_code_iff db code uid total = (λ h. ground arith, λ h. ground arith)

-- A code whose limit for each user is at most one and that passes the checks, as its row stands in a
-- table with one row to an id, is redeemed for a delivery without a redemption at the same database.
pub checked_redeems :
    (code : PromoCode) (uid did total : ℕ) (d : DiscountResult) (db : Db)
    → IsKeyed code_key db.promo_codes
    → find code_key code.id db.promo_codes ≡ some code
    → check_code db (some code) uid total ≡ ok code
    → code.per_user_limit ≤ 1
    → count (λ q. q.delivery_id == did) db.redemptions ≡ 0
    → (redeem_within_tx code uid did total d db).0 ≡ ok tt
unfolding redeem_within_tx
checked_redeems code uid did total d db k e c limit fresh =
    let (is_open_now, _, left) = (check_code_iff db code uid total).0 c in
    ground (arith, count-at code_key code.id (is_open db.now) db.promo_codes k)
