-- ===== src/Examples/Skies.antt =====
-- The serviceability check and the cache of the zones at concrete routes.
use drovery_backend.Base.{
  leb, if◌then◌else◌, Bool, true, false, none, some, [], ◌∷◌, ◌≡◌, ◌↔◌, refl,
}
use drovery_backend.Base.Int.{pos}
use drovery_backend.Dispatch.{MissionRoute}
use drovery_backend.Serviceability.{
  AreaSettings, WeatherAt, rain, check_serviceability, ZoneRow, GeoCircle, in_force_zones,
}
use drovery_backend.Serviceability.Exact.{MayFly, WeatherAllows, check-Exact}
use drovery_backend.Serviceability.Fresh.{read_at, Tables, Answers, cache_after, zones_fresh}
use drovery_backend.Examples.Data.{flat_distance, route}

abbrev settings : AreaSettings
settings = record { global = false; max_route = none }

abbrev clear_of_circles : MissionRoute → GeoCircle → Bool
clear_of_circles r c = false

abbrev gusty : WeatherAt
gusty lat lng = some (record { wind = 450; condition = rain })

check-Exact_example :
    let v = check_serviceability flat_distance clear_of_circles settings route (some []) gusty in
    ((v.serviceable ≡ true) ↔ (
      MayFly flat_distance clear_of_circles settings route (some [])
      × WeatherAllows (gusty (pos 1) (pos 2)) (gusty (pos 3) (pos 4))))
    × (v.weather_hold ≡ true → MayFly flat_distance clear_of_circles settings route (some []))
check-Exact_example = check-Exact flat_distance clear_of_circles settings route gusty (some [])

abbrev stadium : GeoCircle
stadium = record { name = 83 ∷ []; lat = pos 1; lng = pos 2; radius = 500 }

abbrev matchday : ZoneRow
matchday = record { circle = stadium; active = true; active_from = some 40; active_until = some 60 }

-- The window opens and closes while the table is cached, and it cannot be read after the first call.
abbrev readable_once : Tables
readable_once t = if leb t 30 then some (matchday ∷ []) else none

zones_fresh_example :
    Answers 60 50 readable_once
      (in_force_zones 60 50 (cache_after 60 readable_once (read_at 30 ∷ [])) (readable_once 50))
zones_fresh_example = zones_fresh 60 readable_once (read_at 30 ∷ []) 50

-- The answer at 50, and the failure at 95, when the cache is too old.
cached_answer :
    ((in_force_zones 60 50 (cache_after 60 readable_once (read_at 30 ∷ [])) (readable_once 50)).0
      ≡ some (stadium ∷ []))
    × ((in_force_zones 60 95 (cache_after 60 readable_once (read_at 30 ∷ [])) (readable_once 95)).0
        ≡ none)
unfolding in_force_zones cache_after
cached_answer = (refl, refl)
