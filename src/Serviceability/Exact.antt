-- ===== src/Serviceability/Exact.antt =====
-- What a verdict of src/serviceability/serviceability.service.ts means.
use drovery_backend.Base.{
  ℕ, ◌≤◌, Bool, true, false, Option, none, some, List, ◌≡◌, ◌↔◌, not, ltb, Bool-cases, inl, inr,
  refl, arith,
}
use drovery_backend.Dispatch.{Distance, MissionRoute}
use drovery_backend.Serviceability.Airspace.{GeoCircle}
use drovery_backend.Serviceability.Check.{
  AreaSettings, WeatherAt, WeatherConditions, check_serviceability, is_in_any_area, crosses,
  route_limit, is_flyable, soft_check, airspace_then_weather,
}

-- A failed call is as good as a flyable report, for both endpoints.
abbrev pub WeatherAllows : Option WeatherConditions → Option WeatherConditions → Type 0
WeatherAllows (some a) (some b) = (is_flyable a ≡ true) × (is_flyable b ≡ true)
WeatherAllows _ _ = Unit

abbrev pub AirspaceAllows :
    Distance → (MissionRoute → GeoCircle → Bool) → MissionRoute → Option (List GeoCircle) → Type 0
AirspaceAllows distance near r none = ⊥
AirspaceAllows distance near r (some zones) = crosses distance near r zones ≡ false

-- Nothing that lasts stands against the route.
pub record MayFly (distance : Distance) (near : MissionRoute → GeoCircle → Bool) (s : AreaSettings)
    (r : MissionRoute) (zones : Option (List GeoCircle)) : Type 0 where
  pub starts_in_area : is_in_any_area distance s.global r.from_lat r.from_lng ≡ true
  pub ends_in_area : is_in_any_area distance s.global r.to_lat r.to_lng ≡ true
  pub in_reach : distance r.from_lat r.from_lng r.to_lat r.to_lng ≤ route_limit s.max_route
  pub unrestricted : AirspaceAllows distance near r zones

soft-Exact :
    (a b : Option WeatherConditions)
    → let v = soft_check a b in
      ((v.serviceable ≡ true) ↔ WeatherAllows a b) × (v.weather_hold ≡ not v.serviceable)
soft-Exact none b = ((λ _. tt, λ _. refl), refl)
soft-Exact (some a) none = ((λ _. tt, λ _. refl), refl)
soft-Exact (some a) (some b) = elim (Bool-cases (is_flyable a)) [
  | inr e ↦ rw e ((λ h. ground arith, λ h. ground arith), ground arith)
  | inl e ↦ rw e ((λ h. ground arith, λ h. ground arith), ground arith)
]

module _ (distance : Distance) (near : MissionRoute → GeoCircle → Bool) (s : AreaSettings)
    (r : MissionRoute) (weather : WeatherAt) where
  air-Exact :
      (zones : Option (List GeoCircle))
      → let v = airspace_then_weather distance near r zones weather in
        let w = WeatherAllows (weather r.from_lat r.from_lng) (weather r.to_lat r.to_lng) in
        ((v.serviceable ≡ true) ↔ (AirspaceAllows distance near r zones × w))
        × (v.weather_hold ≡ true → AirspaceAllows distance near r zones)
  air-Exact none = ((λ h. cc, λ h. absurd h.0), λ h. cc)
  air-Exact (some zones) = elim (Bool-cases (crosses distance near r zones)) [
    | inl e ↦ rw e ((λ h. cc, λ h. cc), λ h. cc)
    | inr e ↦
        let soft = soft-Exact (weather r.from_lat r.from_lng) (weather r.to_lat r.to_lng) in
        rw e ((λ h. (refl, soft.0.0 h), λ h. soft.0.1 h.1), λ h. refl)
  ]

  -- A route is serviceable exactly when both ends are in the area, it is in reach, the airspace
  -- could be read and does not restrict it, and the weather allows it: a report is missing, or both
  -- are of a wind of at most 40 km/h and no storm, so that rain alone does not ground a flight. A hold
  -- for the weather is given only where nothing else stands against the route.
  pub check-Exact :
      (zones : Option (List GeoCircle))
      → let v = check_serviceability distance near s r zones weather in
        let w = WeatherAllows (weather r.from_lat r.from_lng) (weather r.to_lat r.to_lng) in
        ((v.serviceable ≡ true) ↔ (MayFly distance near s r zones × w))
        × (v.weather_hold ≡ true → MayFly distance near s r zones)
  unfolding check_serviceability
  check-Exact zones = elim (Bool-cases (is_in_any_area distance s.global r.from_lat r.from_lng)) [
    | inr a ↦ rw a ((λ h. cc, λ h. absurd (clash a h.0.starts_in_area)), λ h. cc)
    | inl a ↦ elim (Bool-cases (is_in_any_area distance s.global r.to_lat r.to_lng)) [
      | inr b ↦ rw (a, b) ((λ h. cc, λ h. absurd (clash b h.0.ends_in_area)), λ h. cc)
      | inl b ↦
          elim (Bool-cases
            (ltb (route_limit s.max_route) (distance r.from_lat r.from_lng r.to_lat r.to_lng))) [
              | inl c ↦ rw (a, b, c) ((λ h. cc, λ h. absurd (too_far c h.0.in_reach)), λ h. cc)
              | inr c ↦
                  let air = air-Exact zones in
                  let fits = within c in
                  let may : (AirspaceAllows distance near r zones
                      → MayFly distance near s r zones) =
                    λ k. record {
                      starts_in_area = a;
                      ends_in_area = b;
                      in_reach = fits;
                      unrestricted = k;
                    } in
                  rw (a, b, c)
                    (
                      (
                        λ h. (may (air.0.0 h).0, (air.0.0 h).1),
                        λ h. air.0.1 (h.0.unrestricted, h.1),
                      ),
                      λ h. may (air.1 h),
                    )
            ]
    ]
  ]
    where
      clash : {b : Bool} → b ≡ false → b ≡ true → ⊥
      clash e f = cc

      too_far : {a b : ℕ} → ltb a b ≡ true → b ≤ a → ⊥
      too_far e f = ground arith

      within : {a b : ℕ} → ltb a b ≡ false → b ≤ a
      within e = ground arith
