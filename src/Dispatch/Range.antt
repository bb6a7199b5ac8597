-- ===== src/Dispatch/Range.antt =====
-- The range budget of src/dispatch/flight-feasibility.ts is safe.
use drovery_backend.Base.{
  ℕ, ◌-◌, ◌*◌, ◌≤◌, ◌<◌, ◌≡◌, min, refl, true, false, some, arith, ◌==◌, inl, inr, Bool-cases, ◌||◌,
  ◌↔◌,
}
use native.Mathlib.Nat.{le_trans}
use drovery_backend.Store.{Drone}
use drovery_backend.Dispatch.Feasibility.{
  Distance, MissionRoute, UsableRange, usable_range, exceeds, assess_feasibility, is_feasible,
  mission_distance, min_dispatch_battery_percent, capacity, battery,
}

mul_mono : (a b c d : ℕ) → a ≤ b → c ≤ d → a * c ≤ b * d
mul_mono a b c d h k = le_trans (grind arith) (scale b c d k)
  where
    scale : (b c d : ℕ) → c ≤ d → b * c ≤ b * d
    scale b c d k = grind arith

budget_bound :
    (r c x w : ℕ)
    → c ≤ 100
    → x ≤ 100 * w
    → 100 * (r * c * x * 75) ≤ 75 * r * (100 * (100 * w) * 100)
budget_bound r c x w h k =
    omega (arith, mul_mono (r * c) (r * 100) x (100 * w) (mul_mono r r c 100 (omega arith) h) k)

-- A usable range is at most three quarters of the airframe's range.
pub usable-le-range :
    (range max_payload charge payload : ℕ)
    → let r = usable_range range max_payload charge payload in 100 * r.num ≤ 75 * range * r.den
unfolding usable_range
usable-le-range range max_payload charge payload =
    elim (Bool-cases (range == 0 || max_payload == 0)) [
      | inl e ↦ rw e (omega arith)
      | inr e ↦ rw e (
          budget_bound range (min 100 charge) (100 * max_payload - 35 * min max_payload payload)
            max_payload (omega arith) (omega arith))
    ]

-- More charge never shortens the usable range, and more payload never lengthens it. Both ranges
-- are fractions of the same denominator.
pub usable_mono :
    (range max_payload c c' p p' : ℕ)
    → c ≤ c'
    → p' ≤ p
    → let r = usable_range range max_payload c p in
      let r' = usable_range range max_payload c' p' in (r.den ≡ r'.den) × (r.num ≤ r'.num)
unfolding usable_range
usable_mono range max_payload c c' p p' h k = elim (Bool-cases (range == 0 || max_payload == 0)) [
  | inl e ↦ rw e (refl, omega arith)
  | inr e ↦ rw e (
    refl,
    mul_mono _ _ 75 75
        (mul_mono _ _ (100 * max_payload - 35 * min max_payload p)
          (100 * max_payload - 35 * min max_payload p')
          (mul_mono range range (min 100 c) (min 100 c') (omega arith) (omega arith)) (omega arith))
        (omega arith),
  )
]

feasible_parts :
    (distance : Distance) (d : Drone) (route : MissionRoute) (payload : ℕ)
    → is_feasible (assess_feasibility distance d route payload) ≡ true
    → (payload ≤ d.max_payload)
      × (min_dispatch_battery_percent ≤ d.battery_percent)
      × (exceeds
            (mission_distance distance d route)
            (usable_range d.range d.max_payload d.battery_percent payload)
          ≡ false)
unfolding assess_feasibility
feasible_parts distance d route payload h = ground arith

not_exceeds : (m : ℕ) (r : UsableRange) → exceeds m r ≡ false → m * r.den ≤ r.num
not_exceeds m r h = ground arith

pub usable-den-pos : (range max_payload c p : ℕ) → 0 < (usable_range range max_payload c p).den
unfolding usable_range
usable-den-pos range max_payload c p = ground arith

pub cancel_den : (a b d : ℕ) → 0 < d → a * d ≤ b * d → a ≤ b
cancel_den a b d pos h = grind arith

-- An aircraft that passes the check can lift the payload, has a quarter of its charge, and flies a
-- whole mission, the way home included, of three quarters of its range at most.
pub feasible_is_safe :
    (distance : Distance) (d : Drone) (route : MissionRoute) (payload : ℕ)
    → is_feasible (assess_feasibility distance d route payload) ≡ true
    → (payload ≤ d.max_payload)
      × (25 ≤ d.battery_percent)
      × (100 * mission_distance distance d route ≤ 75 * d.range)
feasible_is_safe distance d route payload h =
    let (lifts, charged, fits) = feasible_parts distance d route payload h in
    let r = usable_range d.range d.max_payload d.battery_percent payload in
    let m = mission_distance distance d route in
    (
      lifts,
      charged,
      cancel_den (100 * m) (75 * d.range) r.den
          (usable-den-pos d.range d.max_payload d.battery_percent payload)
          (omega (
            arith,
            not_exceeds m r fits,
            usable-le-range d.range d.max_payload d.battery_percent payload,
          )),
    )

-- The verdict's reason is the first check that fails, in the order capacity, charge, range.
pub reason_order :
    (distance : Distance) (d : Drone) (route : MissionRoute) (payload : ℕ)
    → let v = assess_feasibility distance d route payload in
      ((v.reason ≡ some capacity) ↔ (d.max_payload < payload))
      × ((v.reason ≡ some battery) ↔ ((payload ≤ d.max_payload) × (d.battery_percent < 25)))
unfolding assess_feasibility
reason_order distance d route payload =
    ((λ h. ground arith, λ h. ground arith), (λ h. ground arith, λ h. ground arith))
