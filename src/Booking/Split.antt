-- ===== src/Booking/Split.antt =====
-- The quote of `create` in src/deliveries/deliveries.service.ts: it writes nothing, and the charge
-- adds up.
use drovery_backend.Base.{ℕ, ◌+◌, ◌≤◌, if◌then◌else◌, Bool, not, Option, none, some, ◌≡◌, ◌&&◌, ltb}
use drovery_backend.Base.Text.{Text}
use drovery_backend.Base.Table.{find}
use drovery_backend.Store.{
  Db, AppError, not_serviceable, throw, Result, ok, err, pure, throw_if, user_key, ◌>>=◌, ◌>>◌,
  schedule_invalid_date, schedule_too_far, coords_address_mismatch, weight_exceeds_cap,
}
use drovery_backend.Store.Invariants.{Keeps, >>=-Keeps, ite_Keeps, throw_if-Keeps}
use drovery_backend.Wallet.{balance_or_zero}
use drovery_backend.Promo.{validate_for_redeem}
use drovery_backend.Dispatch.{Distance, MissionRoute, complete_route}
use drovery_backend.Serviceability.{ServiceabilityResult}
use drovery_backend.Pricing.{assert_weight_within_cap, exceeds_cap, estimate_total}
use drovery_backend.Booking.Sizing.{
  CreateRequest, Quote, quote, check_request, check_schedule, size_booking, validated_promo,
  assert_serviceable, assert_verdict, resolve_coords, pin_deviates, is_scheduled, lead_time,
  max_schedule, route_distance,
}

module _ (distance : Distance) (P : Db → Type 0) where
  verdict-Keeps : (v : ServiceabilityResult) → Keeps P (assert_verdict v)
  verdict-Keeps v =
      ite_Keeps P v.serviceable (pure tt)
        (if v.weather_hold then throw AppError.weather_hold else throw not_serviceable) (λ db h. h)
        (ite_Keeps P v.weather_hold (throw AppError.weather_hold) (throw not_serviceable)
          (λ db h. h) (λ db h. h))

  serviceable-Keeps :
      (v : ServiceabilityResult) (o : Option MissionRoute) → Keeps P (assert_serviceable v o)
  serviceable-Keeps v none db h = h
  serviceable-Keeps v (some r) db h =
      >>=-Keeps P (assert_verdict v) (λ _. pure r) (verdict-Keeps v) (λ _ db h. h) db h

  check_request-Keeps : (r : CreateRequest) → Keeps P (check_request distance r)
  unfolding check_request assert_weight_within_cap
  check_request-Keeps r =
      let weight = throw_if (exceeds_cap r.package_size r.package_weight) weight_exceeds_cap in
      let date = throw_if (not r.pickup_date_is_valid) schedule_invalid_date in
      let from =
        throw_if (pin_deviates distance r.from_geo r.caller.from_lat r.caller.from_lng)
          coords_address_mismatch in
      let to =
        throw_if (pin_deviates distance r.to_geo r.caller.to_lat r.caller.to_lng)
          coords_address_mismatch in
      let last = assert_serviceable r.serviceability (complete_route (resolve_coords r)) in
      >>=-Keeps P (weight >> date >> from >> to) (λ _. last)
        (>>=-Keeps P (weight >> date >> from) (λ _. to)
          (>>=-Keeps P (weight >> date) (λ _. from)
            (>>=-Keeps P weight (λ _. date) (throw_if-Keeps P _ _) (λ _. throw_if-Keeps P _ _))
            (λ _. throw_if-Keeps P _ _))
          (λ _. throw_if-Keeps P _ _))
        (λ _. serviceable-Keeps r.serviceability (complete_route (resolve_coords r)))

  check_schedule-Keeps : (r : CreateRequest) → Keeps P (check_schedule distance r)
  unfolding check_schedule
  check_schedule-Keeps r db =
      let later = is_scheduled r.scheduled_for db.now in
      let guard =
        throw_if (later && ltb max_schedule (lead_time r.scheduled_for db.now)) schedule_too_far in
      >>=-Keeps P guard (λ _. pure later) (throw_if-Keeps P _ _) (λ _ db h. h) db

  validated-Keeps : (o : Option Text) (uid total : ℕ) → Keeps P (validated_promo o uid total)
  unfolding validate_for_redeem
  validated-Keeps none uid total db h = h
  validated-Keeps (some code) uid total db h =
      >>=-Keeps P (validate_for_redeem code uid total) (λ c. pure (some c)) (λ db h. h)
        (λ c db h. h) db h

  size_booking-Keeps :
      (uid : ℕ) (r : CreateRequest) (route : MissionRoute) (later : Bool)
      → Keeps P (size_booking distance uid r route later)
  unfolding size_booking
  size_booking-Keeps uid r route later =
      >>=-Keeps P
        (validated_promo r.promo_code uid (
          estimate_total r.package_size r.package_weight r.package_types
            (route_distance distance route)))
        _ (validated-Keeps r.promo_code uid _) (λ promo db h. h)

  -- A quote only reads.
  pub quote-Keeps : (uid : ℕ) (r : CreateRequest) → Keeps P (quote distance uid r)
  unfolding quote
  quote-Keeps uid r =
      >>=-Keeps P (check_request distance r)
        (λ route. check_schedule distance r >>= λ later. size_booking distance uid r route later)
        (check_request-Keeps r)
        (λ route.
          >>=-Keeps P (check_schedule distance r) (λ later. size_booking distance uid r route later)
            (check_schedule-Keeps r) (λ later. size_booking-Keeps uid r route later))

-- The discount, the credits and the charge add up to the price, and the balance covers the credits.
abbrev pub AddsUp : ℕ → Quote → Type 0
AddsUp balance q =
    (q.discount.discount_amount + q.charge.credits_to_apply + q.charge.final_total
      ≡ q.original_total)
    × (q.charge.credits_to_apply ≤ balance)

-- `Q` holds of what a call returned, if it returned.
abbrev pub Yields : {A : Type 0} → (A → Type 0) → Result A × Db → Type 0
Yields Q (ok a, db) = Q a
Yields Q (err e, db) = Unit

abbrev HasBalance : ℕ → ℕ → Db → Type 0
HasBalance uid b db = balance_or_zero (find user_key uid db.users) ≡ b
