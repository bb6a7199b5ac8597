-- ===== src/Booking/Sizing.antt =====
-- The checks and the sizing of the charge in `create` of src/deliveries/deliveries.service.ts.
use drovery_backend.Base.{
  ℕ, ◌-◌, Bool, false, not, Option, none, some, List, ◌&&◌, ◌==◌, leb, ltb, if◌then◌else◌, is_some,
  ◌*◌,
}
use drovery_backend.Base.Int.{ℤ}
use drovery_backend.Base.Text.{Text}
use drovery_backend.Base.Table.{find, find_first}
use drovery_backend.Store.{
  user_key, Referral, PromoCode, Action, ⊤, pure, throw, gets, throw_if, ◌>>=◌, ◌>>◌, Result,
  schedule_invalid_date, schedule_too_far, coords_address_mismatch, unresolved_location,
  weather_hold, not_serviceable,
}
use drovery_backend.Wallet.{is_pending_referral, balance_or_zero}
use drovery_backend.Promo.{DiscountResult, validate_for_redeem, compute_discount}
use drovery_backend.Dispatch.{PartialRoute, complete_route, Distance, MissionRoute}
use drovery_backend.Pricing.{PackageSize, PackageType, assert_weight_within_cap, estimate_total}
use drovery_backend.Serviceability.{ServiceabilityResult}
use drovery_backend.Payments.{Intent}

abbrev pub max_coord_deviation : ℕ
max_coord_deviation = 1000

abbrev pub schedule_threshold : ℕ
schedule_threshold = 60000

abbrev pub max_schedule : ℕ
max_schedule = 60 * (24 * (60 * (60 * 1000)))

pub record GeoPoint : Type 0 where
  pub lat : ℤ
  pub lng : ℤ

-- The request, with the answers of the services outside: the date parser, the geocoder, the
-- serviceability check, the random ids and digest, and Stripe.
pub record CreateRequest : Type 0 where
  pub delivery_id : ℕ
  pub tracking_ids : List ℕ
  pub handoff_code_hash : ℕ
  pub package_size : PackageSize
  pub package_weight : ℕ
  pub package_types : List PackageType
  pub pickup_date_is_valid : Bool
  pub scheduled_for : Option ℕ
  pub from_geo : Option GeoPoint
  pub to_geo : Option GeoPoint
  pub caller : PartialRoute
  pub serviceability : ServiceabilityResult
  pub promo_code : Option Text
  pub use_credits : Bool
  pub intent : Result Intent

abbrev pub lat_of : Option GeoPoint → Option ℤ
lat_of none = none
lat_of (some p) = some p.lat

abbrev pub lng_of : Option GeoPoint → Option ℤ
lng_of none = none
lng_of (some p) = some p.lng

-- `resolveCoords`: the geocoded addresses, never the caller's coordinates.
abbrev pub resolve_coords : CreateRequest → PartialRoute
resolve_coords r = record {
  from_lat = lat_of r.from_geo;
  from_lng = lng_of r.from_geo;
  to_lat = lat_of r.to_geo;
  to_lng = lng_of r.to_geo;
}

-- `assertServiceable`, on the verdict.
abbrev pub assert_verdict : ServiceabilityResult → Action ⊤
assert_verdict result =
    if result.serviceable
    then pure tt
    else if result.weather_hold
    then throw weather_hold
    else throw not_serviceable

abbrev pub assert_serviceable : ServiceabilityResult → Option MissionRoute → Action MissionRoute
assert_serviceable verdict none = throw unresolved_location
assert_serviceable verdict (some route) = assert_verdict verdict >> pure route

abbrev pub lead_time : Option ℕ → ℕ → ℕ
lead_time none now = 0
lead_time (some t) now = t - now

abbrev pub is_scheduled : Option ℕ → ℕ → Bool
is_scheduled at now = ltb schedule_threshold (lead_time at now)

-- The lower of the two amounts.
abbrev pub lower : ℕ → ℕ → ℕ
lower a b = if leb a b then a else b

-- What the customer pays, and how.
pub record Charge : Type 0 where
  pub credits_to_apply : ℕ
  pub final_total : ℕ

unfoldable pub size_charge : Bool → ℕ → ℕ → Charge
size_charge use_credits balance after_promo =
    let credits = if use_credits then lower balance after_promo else 0 in
    record { credits_to_apply = credits; final_total = after_promo - credits }

unfoldable pub discount_of : Option PromoCode → ℕ → DiscountResult
unfolding compute_discount
discount_of none total = record { discount_amount = 0; final_total = total }
discount_of (some code) total = compute_discount code total

-- What the checks settle before anything is written.
pub record Quote : Type 0 where
  pub route : PartialRoute
  pub original_total : ℕ
  pub promo : Option PromoCode
  pub discount : DiscountResult
  pub charge : Charge
  pub starts_later : Bool
  pub has_pending_referral : Bool

abbrev pub validated_promo : Option Text → ℕ → ℕ → Action (Option PromoCode)
validated_promo none user_id total = pure none
validated_promo (some code) user_id total = do
  found ← validate_for_redeem code user_id total
  pure (some found)

abbrev pub is_referee_pending : ℕ → Referral → Bool
is_referee_pending user_id r = r.referee_id == user_id && is_pending_referral r

module _ (distance : Distance) where
  -- The caller's pin must lie within a kilometre of its address.
  abbrev pub pin_deviates : Option GeoPoint → Option ℤ → Option ℤ → Bool
  pin_deviates none lat lng = false
  pin_deviates (some geo) none lng = false
  pin_deviates (some geo) (some lat) none = false
  pin_deviates (some geo) (some lat) (some lng) =
      ltb max_coord_deviation (distance geo.lat geo.lng lat lng)

  abbrev pub route_distance : MissionRoute → ℕ
  route_distance r = distance r.from_lat r.from_lng r.to_lat r.to_lng

  -- The checks, in the order of `create`.
  unfoldable pub check_request : CreateRequest → Action MissionRoute
  unfolding assert_weight_within_cap
  check_request r =
      assert_weight_within_cap r.package_size r.package_weight
      >> throw_if (not r.pickup_date_is_valid) schedule_invalid_date
      >> throw_if (pin_deviates r.from_geo r.caller.from_lat r.caller.from_lng)
          coords_address_mismatch
      >> throw_if (pin_deviates r.to_geo r.caller.to_lat r.caller.to_lng) coords_address_mismatch
      >> assert_serviceable r.serviceability (complete_route (resolve_coords r))

  -- Whether it starts later; not further ahead than the limit.
  unfoldable pub check_schedule : CreateRequest → Action Bool
  check_schedule r = do
    now ← gets (λ db. db.now)
    let later = is_scheduled r.scheduled_for now
    throw_if (later && ltb max_schedule (lead_time r.scheduled_for now)) schedule_too_far
    pure later

  -- The price, less the promo, less the credits.
  unfoldable pub size_booking : ℕ → CreateRequest → MissionRoute → Bool → Action Quote
  unfolding estimate_total size_charge discount_of validate_for_redeem
  size_booking user_id r route later = do
    let total =
        estimate_total r.package_size r.package_weight r.package_types (route_distance route)
    promo ← validated_promo r.promo_code user_id total
    balance ← gets (λ db. balance_or_zero (find user_key user_id db.users))
    pending ← gets (λ db. is_some (find_first (is_referee_pending user_id) db.referrals))
    let discount = discount_of promo total
    pure (record {
      route = resolve_coords r;
      original_total = total;
      promo = promo;
      discount = discount;
      charge = size_charge r.use_credits balance discount.final_total;
      starts_later = later;
      has_pending_referral = pending;
    })

  -- The part of `create` up to the dispatch: it only reads.
  unfoldable pub quote : ℕ → CreateRequest → Action Quote
  unfolding check_request check_schedule size_booking
  quote user_id r = do
    route ← check_request r
    later ← check_schedule r
    size_booking user_id r route later
