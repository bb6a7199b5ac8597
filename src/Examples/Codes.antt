-- ===== src/Examples/Codes.antt =====
-- The promo codes and the dispatch ranking: the theorems at concrete codes and aircraft.
use drovery_backend.Base.{◌*◌, ◌≤◌, ◌<◌, true, none, some, ◌≡◌, refl, arith, ◌↔◌}
use drovery_backend.Base.Table.{find, count}
use drovery_backend.Store.{code_key, ok, available}
use drovery_backend.Promo.{
  DiscountResult, check_code, is_open, is_redemption_of, redeem_within_tx, release_for_delivery,
}
use drovery_backend.Promo.Cap.{
  RespectsCap, IsCounted, redeem-RespectsCap, check_code_iff, checked_redeems,
}
use drovery_backend.Promo.Release.{release-redeem}
use drovery_backend.Dispatch.{assess_feasibility, mission_distance}
use drovery_backend.Dispatch.Range.{feasible_is_safe}
use drovery_backend.Examples.Data.{sample, code_ten, flat_distance, route, drone_with}

abbrev ten_off : DiscountResult
ten_off = record { discount_amount = 100; final_total = 900 }

sample-IsCounted : IsCounted sample
sample-IsCounted = record {
  keyed = ground arith;
  counted = λ k. ground arith;
  per_user = λ k u. ground arith;
}

redeem-RespectsCap_example : RespectsCap (redeem_within_tx code_ten 1 4 1000 ten_off sample).1
redeem-RespectsCap_example = redeem-RespectsCap code_ten 1 4 1000 ten_off sample (ground arith)

check_code_iff_example : (check_code sample (some code_ten) 1 1000 ≡ ok code_ten) ↔ (
    (is_open sample.now code_ten ≡ true)
    × (code_ten.min_order_total ≤ 1000)
    × (count (is_redemption_of code_ten.id 1) sample.redemptions < code_ten.per_user_limit))
check_code_iff_example = check_code_iff sample code_ten 1 1000

checked_redeems_example : (redeem_within_tx code_ten 1 4 1000 ten_off sample).0 ≡ ok tt
unfolding check_code
checked_redeems_example =
    checked_redeems code_ten 1 4 1000 ten_off sample (ground arith) refl refl (ground arith) refl

release-redeem_example :
    find code_key 1
      (release_for_delivery 4 (redeem_within_tx code_ten 1 4 1000 ten_off sample).1).1.promo_codes
    ≡ find code_key 1 sample.promo_codes
unfolding redeem_within_tx
release-redeem_example = release-redeem code_ten 1 4 1000 1 ten_off sample (ground arith) refl

feasible_is_safe_example :
    (300 ≤ 2000)
    × (25 ≤ 90)
    × (100 * mission_distance flat_distance (drone_with 8 available none) route ≤ 75 * 20000)
unfolding assess_feasibility
feasible_is_safe_example =
    feasible_is_safe flat_distance (drone_with 8 available none) route 300 refl
