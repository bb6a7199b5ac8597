-- ===== src/Dispatch/Feasibility.antt =====
-- src/dispatch/flight-feasibility.ts and the margins of src/dispatch/dispatch.constants.ts.
-- A usable range is an exact fraction of metres, where the source computes with floats.
use drovery_backend.Base.{
  ℕ, ◌+◌, ◌-◌, ◌*◌, min, Bool, ◌||◌, Option, none, some, get_or, is_some, not, ltb, ◌==◌,
  if◌then◌else◌,
}
use drovery_backend.Base.Int.{ℤ}
use drovery_backend.Store.{Drone}

abbrev pub min_dispatch_battery_percent : ℕ
min_dispatch_battery_percent = 25

-- In hundredths: 0.25 and 0.35.
abbrev pub range_reserve : ℕ
range_reserve = 25

abbrev pub payload_range_penalty : ℕ
payload_range_penalty = 35

abbrev pub max_claim_attempts : ℕ
max_claim_attempts = 8

abbrev pub candidate_limit : ℕ
candidate_limit = 50

-- The distance of two points in metres, by latitude and longitude: `haversineKm`.
abbrev pub Distance : Type 0
Distance = ℤ → ℤ → ℤ → ℤ → ℕ

pub record MissionRoute : Type 0 where
  pub from_lat : ℤ
  pub from_lng : ℤ
  pub to_lat : ℤ
  pub to_lng : ℤ

-- Where the aircraft is now, to the pickup, to the dropoff, and home.
unfoldable pub mission_distance : Distance → Drone → MissionRoute → ℕ
mission_distance distance drone route =
    let start_lat = get_or drone.current_lat drone.home_base_lat in
    let start_lng = get_or drone.current_lng drone.home_base_lng in
    distance start_lat start_lng route.from_lat route.from_lng
    + distance route.from_lat route.from_lng route.to_lat route.to_lng
    + distance route.to_lat route.to_lng drone.home_base_lat drone.home_base_lng

-- `num / den` metres.
pub record UsableRange : Type 0 where
  pub num : ℕ
  pub den : ℕ

-- How far an aircraft can be trusted to fly: its range by its charge, less the payload's share
-- and the reserve. The arguments are the airframe's range and rated payload, its charge, and the
-- payload.
unfoldable pub usable_range : ℕ → ℕ → ℕ → ℕ → UsableRange
usable_range range max_payload battery payload =
    if range == 0 || max_payload == 0 then record { num = 0; den = 1 } else record {
      num =
          range
          * min 100 battery
          * (100 * max_payload - payload_range_penalty * min max_payload payload)
          * (100 - range_reserve);
      den = 100 * (100 * max_payload) * 100;
    }

-- `km > usableRangeKm(...)`
abbrev pub exceeds : ℕ → UsableRange → Bool
exceeds distance r = ltb r.num (distance * r.den)

pub data InfeasibleReason : Type 0 where
  capacity battery range : InfeasibleReason

-- Feasible where there is no reason against it.
pub record FeasibilityVerdict : Type 0 where
  pub reason : Option InfeasibleReason
  pub mission : ℕ

abbrev pub is_feasible : FeasibilityVerdict → Bool
is_feasible v = not (is_some v.reason)

unfoldable pub assess_feasibility : Distance → Drone → MissionRoute → ℕ → FeasibilityVerdict
unfolding mission_distance usable_range
assess_feasibility distance drone route payload =
    let mission = mission_distance distance drone route in
    if ltb drone.max_payload payload
    then record { reason = some capacity; mission = mission }
    else if ltb drone.battery_percent min_dispatch_battery_percent
    then record { reason = some battery; mission = mission }
    else if exceeds mission
        (usable_range drone.range drone.max_payload drone.battery_percent payload)
    then record { reason = some InfeasibleReason.range; mission = mission }
    else record { reason = none; mission = mission }
