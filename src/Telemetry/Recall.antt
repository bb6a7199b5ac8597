-- ===== src/Telemetry/Recall.antt =====
-- The recall of src/deliveries/telemetry/energy.ts brings an aircraft home.
use drovery_backend.Base.{
  ℕ, ◌*◌, ◌≤◌, ◌<◌, true, false, ◌≡◌, Bool-cases, inl, inr, refl, arith, leb, sym,
}
use native.Mathlib.Nat.{le_trans}
use drovery_backend.Store.{Drone}
use drovery_backend.Dispatch.{Distance, UsableRange, usable_range}
use drovery_backend.Dispatch.Range.{usable-le-range, usable_mono, usable-den-pos, cancel_den}
use drovery_backend.Telemetry.Energy.{
  EnergyReading, recall, assess_recall, critical_battery_percent, return_trigger_margin,
  out_of_range,
}

-- The test of the range, as a comparison of fractions.
in_range :
    (home : ℕ) (r : UsableRange)
    → out_of_range home r ≡ false
    → home * return_trigger_margin * r.den ≤ 100 * r.num
in_range home r h = ground arith

module _ (distance : Distance) (drone : Drone) (r : EnergyReading) (payload : ℕ) where
  abbrev home : ℕ
  home = distance r.lat r.lng drone.home_base_lat drone.home_base_lng

  abbrev left : UsableRange
  left = usable_range drone.range drone.max_payload r.battery_percent payload

  unrecalled_parts :
      recall (assess_recall distance drone r payload) ≡ false
      → (leb r.battery_percent critical_battery_percent ≡ false) × (out_of_range home left ≡ false)
  unfolding assess_recall
  unrecalled_parts h = elim (Bool-cases (leb r.battery_percent critical_battery_percent)) [
    | inl e ↦ absurd (clash (rw e at h))
    | inr e ↦ elim (Bool-cases (out_of_range home left)) [
      | inl f ↦ absurd (clash (rw (e, f) at h))
      | inr f ↦ (e, f)
    ]
  ]
    where
      clash : true ≡ false → ⊥
      clash e = cc

  recall_unless :
      leb r.battery_percent critical_battery_percent ≡ false
      → out_of_range home left ≡ false
      → recall (assess_recall distance drone r payload) ≡ false
  unfolding assess_recall
  recall_unless e f = rw (e, f) refl

  -- An aircraft that is not recalled has more than the critical charge, and its way home, with the
  -- margin of 15 %, is three quarters of its airframe's range at most.
  pub unrecalled_in_reach :
      recall (assess_recall distance drone r payload) ≡ false
      → (critical_battery_percent < r.battery_percent)
        × (distance r.lat r.lng drone.home_base_lat drone.home_base_lng * return_trigger_margin
            ≤ 75 * drone.range)
  unrecalled_in_reach h =
      let (charged, fits) = unrecalled_parts h in
      (
        ground arith,
        cancel_den (home * return_trigger_margin) (75 * drone.range) left.den
            (usable-den-pos drone.range drone.max_payload r.battery_percent payload)
            (le_trans (in_range home left fits)
              (usable-le-range drone.range drone.max_payload r.battery_percent payload)),
      )

fits_more :
    (home n n' d d' : ℕ)
    → d ≡ d'
    → n ≤ n'
    → out_of_range home (record { num = n; den = d }) ≡ false
    → out_of_range home (record { num = n'; den = d' }) ≡ false
fits_more home n n' d d' e h k =
    rw (sym e) (ground (arith, in_range home (record { num = n; den = d }) k))

-- An aircraft that is not recalled is not recalled either, at the same place, with more charge or a
-- lighter load.
pub recall_mono :
    (distance : Distance) (drone : Drone) (r : EnergyReading) (charge payload lighter : ℕ)
    → r.battery_percent ≤ charge
    → lighter ≤ payload
    → recall (assess_recall distance drone r payload) ≡ false
    → recall (assess_recall distance drone (record r { battery_percent = charge }) lighter) ≡ false
recall_mono distance drone r charge payload lighter h k n =
    let (charged, fits) = unrecalled_parts distance drone r payload n in
    let (same, more) =
      usable_mono drone.range drone.max_payload r.battery_percent charge payload lighter h k in
    recall_unless distance drone (record r { battery_percent = charge }) lighter (ground arith)
      (fits_more _ _ _ _ _ same more fits)
