-- ===== src/Promo/Defs.antt =====
-- The operations of src/promo/promo.service.ts.
use drovery_backend.Base.{
  ℕ, ◌+◌, ◌-◌, ◌*◌, ◌/◌, Bool, true, false, ◌&&◌, not, Option, none, some, ◌∷◌, ltb, leb, ◌==◌,
  if◌then◌else◌,
}
use drovery_backend.Base.Int.{ℤ, pos, negsuc, pos_part, min_ℤ}
use drovery_backend.Base.Text.{Text, text_eq, trim, to_upper_case}
use drovery_backend.Base.Table.{find_first, count, update_many, at, find}
use drovery_backend.Store.{
  Db, PromoCode, code_key, percent, fixed, PromoRedemption, redeemed, released, PromoRejectReason,
  invalid, inactive, not_started, expired, globally_maxed, per_user_exceeded, min_not_met,
  promo_rejected, unique_violation, promo_delivery, Result, Action, ⊤, ok, err, pure, gets,
  throw_if, modify, when, transaction, ◌>>=◌, ◌>>◌,
}

pub record DiscountResult : Type 0 where
  pub discount_amount : ℕ
  pub final_total : ℕ

-- `Math.round(-k / 10000)`: a half rounds up, towards zero.
abbrev round_negative : ℕ → ℤ
round_negative k = if leb k 5000 then pos 0 else negsuc ((k + 4999) / 10000 - 1)

-- `round2(total * value / 100)`, the value in hundredths of a percent: to the nearest cent, and a
-- half cent up.
abbrev pub percent_of : ℕ → ℤ → ℤ
percent_of total (pos v) = pos ((total * v + 5000) / 10000)
percent_of total (negsuc v) = round_negative (total * (v + 1))

abbrev pub raw_discount : PromoCode → ℕ → ℤ
raw_discount code total = elim code.discount_type [
  | percent ↦ percent_of total code.discount_value
  | fixed ↦ code.discount_value
]

abbrev pub capped_discount : Option ℤ → ℤ → ℤ
capped_discount none raw = raw
capped_discount (some cap) raw = min_ℤ raw cap

-- `computeDiscount`: clamped to between zero and the order's total.
unfoldable pub compute_discount : PromoCode → ℕ → DiscountResult
compute_discount code total =
    let raw = capped_discount code.max_discount (raw_discount code total) in
    let amount = pos_part (min_ℤ raw (pos total)) in
    record { discount_amount = amount; final_total = total - amount }

abbrev pub has_started : Option ℕ → ℕ → Bool
has_started none now = true
has_started (some t) now = leb t now

abbrev pub has_ended : Option ℕ → ℕ → Bool
has_ended none now = false
has_ended (some t) now = leb t now

-- A slot is left under the global cap.
abbrev pub has_slot : Option ℕ → ℕ → Bool
has_slot none used = true
has_slot (some cap) used = ltb used cap

abbrev pub is_redeemed : PromoRedemption → Bool
is_redeemed r = elim r.status [ redeemed ↦ true | released ↦ false ]

abbrev pub is_redemption_of : ℕ → ℕ → PromoRedemption → Bool
is_redemption_of code_id user_id r =
    r.promo_code_id == code_id && (r.user_id == user_id && is_redeemed r)

-- `checkRedeemable`, on the row that the lookup found.
unfoldable pub check_code : Db → Option PromoCode → ℕ → ℕ → Result PromoCode
check_code db none user_id total = err (promo_rejected invalid)
check_code db (some code) user_id total =
    if not code.active
    then err (promo_rejected inactive)
    else if not (has_started code.starts_at db.now)
    then err (promo_rejected not_started)
    else if has_ended code.ends_at db.now
    then err (promo_rejected expired)
    else if ltb 0 code.min_order_total && ltb total code.min_order_total
    then err (promo_rejected min_not_met)
    else if not (has_slot code.max_redemptions code.times_redeemed)
    then err (promo_rejected globally_maxed)
    else if leb code.per_user_limit (count (is_redemption_of code.id user_id) db.redemptions)
    then err (promo_rejected per_user_exceeded)
    else ok code

-- `validateForRedeem`
unfoldable pub validate_for_redeem : Text → ℕ → ℕ → Action PromoCode
unfolding check_code
validate_for_redeem raw_code user_id total db =
    let normalized = to_upper_case (trim raw_code) in
    (check_code db (find_first (λ c. text_eq c.code normalized) db.promo_codes) user_id total, db)

-- The guard of the counter's conditional increment.
abbrev pub is_open : ℕ → PromoCode → Bool
is_open now c =
    c.active
    && (has_started c.starts_at now
        && (not (has_ended c.ends_at now) && has_slot c.max_redemptions c.times_redeemed))

abbrev pub take_slot : PromoCode → PromoCode
take_slot c = record c { times_redeemed = c.times_redeemed + 1 }

-- The raw `UPDATE "promo_codes"`: the number of rows that it matched.
unfoldable pub increment_counter : ℕ → Action ℕ
increment_counter code_id db = (
  ok (count (at code_key code_id (is_open db.now)) db.promo_codes),
  record db {
    promo_codes = update_many (at code_key code_id (is_open db.now)) take_slot db.promo_codes;
  },
)

-- Why the increment matched no row.
abbrev pub rejection : Option PromoCode → ℕ → PromoRejectReason
rejection none now = inactive
rejection (some c) now =
    if not c.active
    then inactive
    else if not (has_started c.starts_at now)
    then not_started
    else if has_ended c.ends_at now
    then expired
    else globally_maxed

-- `tx.promoRedemption.create` under its two unique indexes: one redemption of a delivery, and one
-- active redemption of a code by a user.
unfoldable pub create_redemption : PromoRedemption → Action ⊤
create_redemption r = do
  used ← gets (λ db. count (λ q. q.delivery_id == r.delivery_id) db.redemptions)
  throw_if (leb 1 used) (unique_violation promo_delivery)
  taken ← gets (λ db. count (is_redemption_of r.promo_code_id r.user_id) db.redemptions)
  throw_if (leb 1 taken) (promo_rejected per_user_exceeded)
  modify (λ db. record db { redemptions = r ∷ db.redemptions })

-- `redeemWithinTx`
unfoldable pub redeem_within_tx : PromoCode → ℕ → ℕ → ℕ → DiscountResult → Action ⊤
unfolding increment_counter create_redemption
redeem_within_tx code user_id delivery_id total discount = do
  affected ← increment_counter code.id
  current ← gets (λ db. rejection (find code_key code.id db.promo_codes) db.now)
  throw_if (affected == 0) (promo_rejected current)
  now ← gets (λ db. db.now)
  create_redemption (record {
    promo_code_id = code.id;
    user_id = user_id;
    delivery_id = delivery_id;
    discount_amount = discount.discount_amount;
    original_total = total;
    final_total = discount.final_total;
    status = redeemed;
    redeemed_at = now;
    released_at = none;
  })

abbrev pub is_held_by : ℕ → PromoRedemption → Bool
is_held_by delivery_id r = r.delivery_id == delivery_id && is_redeemed r

-- Flip the redemption to RELEASED: the number of rows that it matched.
unfoldable pub flip_redemption : ℕ → Action ℕ
flip_redemption delivery_id db = (
  ok (count (is_held_by delivery_id) db.redemptions),
  record db {
    redemptions =
        update_many (is_held_by delivery_id)
          (λ r. record r { status = released; released_at = some db.now }) db.redemptions;
  },
)

abbrev pub return_slot : PromoCode → PromoCode
return_slot c = record c { times_redeemed = c.times_redeemed - 1 }

unfoldable pub decrement_counter : ℕ → Action ⊤
decrement_counter code_id = modify (λ db. record db {
  promo_codes =
      update_many (at code_key code_id (λ c. ltb 0 c.times_redeemed)) return_slot db.promo_codes;
})

unfoldable pub flip_and_decrement : ℕ → ℕ → Action ⊤
unfolding flip_redemption decrement_counter
flip_and_decrement delivery_id code_id = do
  flipped ← flip_redemption delivery_id
  when (leb 1 flipped) (decrement_counter code_id)

unfoldable pub release_found : ℕ → Option PromoRedemption → Action ⊤
unfolding flip_and_decrement
release_found delivery_id none = pure tt
release_found delivery_id (some r) = transaction (flip_and_decrement delivery_id r.promo_code_id)

-- `releaseForDelivery`
unfoldable pub release_for_delivery : ℕ → Action ⊤
unfolding release_found
release_for_delivery delivery_id = do
  redemption ← gets (λ db. find_first (is_held_by delivery_id) db.redemptions)
  release_found delivery_id redemption
