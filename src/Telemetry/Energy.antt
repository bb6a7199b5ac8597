-- ===== src/Telemetry/Energy.antt =====
-- src/deliveries/telemetry/energy.ts, with the thresholds of flight-recorder.constants.ts. The
-- remaining range is an exact fraction of metres, where the source computes with floats.
use drovery_backend.Base.{ℕ, ◌*◌, Bool, Option, none, some, leb, ltb, is_some, if◌then◌else◌}
use drovery_backend.Base.Int.{ℤ}
use drovery_backend.Store.{Drone}
use drovery_backend.Dispatch.{Distance, UsableRange, usable_range}

abbrev pub critical_battery_percent : ℕ
critical_battery_percent = 15

-- In hundredths: 1.15.
abbrev pub return_trigger_margin : ℕ
return_trigger_margin = 115

pub record EnergyReading : Type 0 where
  pub battery_percent : ℕ
  pub lat : ℤ
  pub lng : ℤ

pub data RecallReason : Type 0 where
  critical_battery insufficient_range_home : RecallReason

-- A recall where there is a reason for one.
pub record RecallVerdict : Type 0 where
  pub reason : Option RecallReason
  pub distance_home : ℕ
  pub remaining_range : UsableRange

abbrev pub recall : RecallVerdict → Bool
recall v = is_some v.reason

-- `distanceHomeKm * RETURN_TRIGGER_MARGIN > remainingRangeKm`
abbrev pub out_of_range : ℕ → UsableRange → Bool
out_of_range home r = ltb (100 * r.num) (home * return_trigger_margin * r.den)

unfoldable pub assess_recall : Distance → Drone → EnergyReading → ℕ → RecallVerdict
unfolding usable_range
assess_recall distance drone reading payload =
    let home = distance reading.lat reading.lng drone.home_base_lat drone.home_base_lng in
    let left = usable_range drone.range drone.max_payload reading.battery_percent payload in
    if leb reading.battery_percent critical_battery_percent
    then record { reason = some critical_battery; distance_home = home; remaining_range = left }
    else if out_of_range home left
    then record {
      reason = some insufficient_range_home;
      distance_home = home;
      remaining_range = left;
    }
    else record { reason = none; distance_home = home; remaining_range = left }
