-- ===== src/Serviceability/Check.antt =====
-- src/serviceability/serviceability.service.ts and serviceability.constants.ts. The great-circle
-- distance and the test of a route's planar distance to a circle (`routeNearCircle`, in floating
-- point) are parameters, as are the weather reports.
use drovery_backend.Base.{
  ℕ, suc, Bool, true, false, not, ◌&&◌, ◌||◌, Option, none, some, List, [], ◌∷◌, leb, ltb, is_some,
  if◌then◌else◌,
}
use drovery_backend.Base.Int.{ℤ, pos, negsuc}
use drovery_backend.Base.Table.{find_first}
use drovery_backend.Dispatch.{Distance, MissionRoute}
use drovery_backend.Serviceability.Airspace.{GeoCircle}

pub data ServiceabilityCode : Type 0 where
  out_of_area route_too_long no_fly_zone weather_hold weather_storm : ServiceabilityCode

-- `code.startsWith('WEATHER')`
abbrev pub is_weather : ServiceabilityCode → Bool
is_weather weather_hold = true
is_weather weather_storm = true
is_weather _ = false

pub record ServiceabilityResult : Type 0 where
  pub serviceable : Bool
  pub codes : List ServiceabilityCode
  pub weather_hold : Bool

abbrev pub blocked : ServiceabilityCode → ServiceabilityResult
blocked code = record { serviceable = false; codes = code ∷ []; weather_hold = is_weather code }

abbrev pub clear_to_fly : ServiceabilityResult
clear_to_fly = record { serviceable = true; codes = []; weather_hold = false }

pub data WeatherCondition : Type 0 where
  clear cloudy rain storm unknown : WeatherCondition

abbrev pub is_storm : WeatherCondition → Bool
is_storm storm = true
is_storm _ = false

-- In tenths of a kilometre an hour.
abbrev pub max_wind : ℕ
max_wind = 400

pub record WeatherConditions : Type 0 where
  pub wind : ℕ
  pub condition : WeatherCondition

-- The forecast's `flyable`.
abbrev pub is_flyable : WeatherConditions → Bool
is_flyable w = leb w.wind max_wind && not (is_storm w.condition)

-- `SERVICE_AREA_GLOBAL` and `MAX_ROUTE_KM`, the latter in metres.
pub record AreaSettings : Type 0 where
  pub global : Bool
  pub max_route : Option ℕ

abbrev pub default_max_route : ℕ
default_max_route = 50000

-- `maxRouteKm`: an override that is not positive is ignored.
abbrev pub route_limit : Option ℕ → ℕ
route_limit (some (suc n)) = suc n
route_limit _ = default_max_route

-- Greater Jakarta and Greater Bandung, in micro-degrees and metres.
abbrev pub service_areas : List GeoCircle
service_areas =
    record { name = []; lat = negsuc 6208799; lng = pos 106845600; radius = 30000 }
    ∷ record { name = []; lat = negsuc 6912499; lng = pos 107611000; radius = 20000 }
    ∷ []

-- The report of the weather at a point, or a failure of the call.
abbrev pub WeatherAt : Type 0
WeatherAt = ℤ → ℤ → Option WeatherConditions

abbrev pub grounded_by : WeatherConditions → ServiceabilityResult
grounded_by w = if is_storm w.condition then blocked weather_storm else blocked weather_hold

-- The first of the two reports that is not flyable.
abbrev pub soft_check : Option WeatherConditions → Option WeatherConditions → ServiceabilityResult
soft_check none b = clear_to_fly
soft_check (some a) none = clear_to_fly
soft_check (some a) (some b) =
    if not (is_flyable a)
    then grounded_by a
    else if not (is_flyable b)
    then grounded_by b
    else clear_to_fly

module _ (distance : Distance) where
  abbrev pub in_circle : ℤ → ℤ → GeoCircle → Bool
  in_circle lat lng c = leb (distance lat lng c.lat c.lng) c.radius

  abbrev pub is_in_any_area : Bool → ℤ → ℤ → Bool
  is_in_any_area global lat lng = global || is_some (find_first (in_circle lat lng) service_areas)

  module _ (near : MissionRoute → GeoCircle → Bool) where
    -- The zone of an endpoint, or one that the route passes.
    abbrev pub crosses : MissionRoute → List GeoCircle → Bool
    crosses r zones =
        is_some (find_first (in_circle r.from_lat r.from_lng) zones)
        || (is_some (find_first (in_circle r.to_lat r.to_lng) zones)
            || is_some (find_first (near r) zones))

    -- Airspace fails closed, weather fails open.
    abbrev pub airspace_then_weather :
        MissionRoute → Option (List GeoCircle) → WeatherAt → ServiceabilityResult
    airspace_then_weather r none weather = blocked no_fly_zone
    airspace_then_weather r (some zones) weather =
        if crosses r zones
        then blocked no_fly_zone
        else soft_check (weather r.from_lat r.from_lng) (weather r.to_lat r.to_lng)

    unfoldable pub check_serviceability :
        AreaSettings → MissionRoute → Option (List GeoCircle) → WeatherAt → ServiceabilityResult
    check_serviceability settings r zones weather =
        if not (is_in_any_area settings.global r.from_lat r.from_lng)
          || not (is_in_any_area settings.global r.to_lat r.to_lng)
        then blocked out_of_area
        else if ltb (route_limit settings.max_route)
            (distance r.from_lat r.from_lng r.to_lat r.to_lng)
        then blocked route_too_long
        else airspace_then_weather r zones weather
