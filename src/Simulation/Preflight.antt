-- ===== src/Simulation/Preflight.antt =====
-- src/deliveries/simulation/preflight.ts and preflight.constants.ts.
use drovery_backend.Base.{ℕ, ◌+◌, Bool, not, Option, none, some, leb, if◌then◌else◌}
use drovery_backend.Base.Table.{find_first}
use drovery_backend.Store.{FailureReason, weather_abort, unsafe_drop_zone, other}
use drovery_backend.Serviceability.{
  ServiceabilityResult, ServiceabilityCode, no_fly_zone, is_weather,
}

pub data PreflightAction : Type 0 where
  launch hold abort : PreflightAction

pub record PreflightVerdict : Type 0 where
  pub action : PreflightAction
  pub code : Option ServiceabilityCode
  pub reason : Option FailureReason

abbrev pub abort_reason : Option ServiceabilityCode → FailureReason
abort_reason (some no_fly_zone) = unsafe_drop_zone
abort_reason _ = other

unfoldable pub classify_preflight : ServiceabilityResult → PreflightVerdict
classify_preflight result =
    if result.serviceable
    then record { action = launch; code = none; reason = none }
    else if result.weather_hold
    then record {
      action = hold;
      code = find_first is_weather result.codes;
      reason = some weather_abort;
    }
    else record {
      action = abort;
      code = find_first (λ c. not (is_weather c)) result.codes;
      reason = some (abort_reason (find_first (λ c. not (is_weather c)) result.codes));
    }

abbrev pub preflight_max_attempts : ℕ
preflight_max_attempts = 4

abbrev pub hold_exhausted : ℕ → ℕ → Bool
hold_exhausted attempt max_attempts = leb max_attempts (attempt + 1)
