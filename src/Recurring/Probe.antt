-- ===== src/Recurring/Probe.antt =====
-- The loop over the days of src/recurring-deliveries/recurrence.ts.
use drovery_backend.Base.{
  ℕ, zero, suc, ◌+◌, ◌≤◌, ◌<◌, Bool, true, false, not, ◌||◌, Option, none, some, List, ◌≡◌, ◌==◌,
  refl, leb, Bool-cases, inl, inr, sym, arith,
}
use drovery_backend.Recurring.Rule.{
  Zone, zoned_wall_clock_to_utc, tz_calendar_date, weekday, contains, is_past_end, probe,
}

skipped_day : (c : Bool) (a f : ℕ) → not c || leb a f ≡ true → c ≡ true → a ≤ f
skipped_day c a f h k = ground arith

taken_day : (c : Bool) (a f : ℕ) → not c || leb a f ≡ false → (c ≡ true) × (f < a)
taken_day c a f h = (ground arith, ground arith)

-- A zone with the same offset all the year, as the service area's is.
module _ (offset : ℕ) where
  abbrev pub fixed : Zone
  fixed t = offset

  abbrev pub at : ℕ → ℕ → ℕ
  at day minute = zoned_wall_clock_to_utc fixed day minute

  pub at_mono : (d e m : ℕ) → d ≤ e → at d m ≤ at e m
  unfolding zoned_wall_clock_to_utc
  at_mono d e m h = omega (arith, h)

  -- An earlier day's times are over, a later day's are to come.
  pub at_earlier : (d m t : ℕ) → m < 1440 → d < tz_calendar_date fixed t → at d m ≤ t
  unfolding zoned_wall_clock_to_utc tz_calendar_date
  at_earlier d m t h k = omega (arith, h, k)

  pub at_later : (d m t : ℕ) → tz_calendar_date fixed t < d → t < at d m
  unfolding zoned_wall_clock_to_utc tz_calendar_date
  at_later d m t k = omega (arith, k)

  module _ (days : List ℕ) (m floor : ℕ) (end_date : Option ℕ) where
    -- What the loop finds, from a day on.
    pub record Found (day t : ℕ) : Type 0 where
      pub on : ℕ
      pub from_day : day ≤ on
      pub is_at : t ≡ at on m
      pub is_chosen : contains days (weekday on) ≡ true
      pub is_later : floor < t
      pub in_time : is_past_end fixed end_date t ≡ false
      pub no_earlier :
          (j : ℕ) → day ≤ j → j < on → contains days (weekday j) ≡ true → at j m ≤ floor

    pub probe-Found : (day n t : ℕ) → probe fixed days m floor end_date day n ≡ some t → Found day t
    unfolding probe
    probe-Found day zero t h = absurd (clash h)
      where
        clash : ◌≡◌ {A = Option ℕ} none (some t) → ⊥
        clash e = cc
    probe-Found day (suc n) t h =
        elim (Bool-cases (not (contains days (weekday day)) || leb (at day m) floor)) [
          | inl skip ↦ passed skip (probe-Found (day + 1) n t (rw skip at h))
          | inr stop ↦ elim (Bool-cases (is_past_end fixed end_date (at day m))) [
            | inl past ↦ absurd (clash (rw (stop, past) at h))
            | inr in_time ↦ here stop in_time (rw (stop, in_time) at h)
          ]
        ]
      where
        clash : ◌≡◌ {A = Option ℕ} none (some t) → ⊥
        clash e = cc

        passed :
            not (contains days (weekday day)) || leb (at day m) floor ≡ true
            → Found (day + 1) t
            → Found day t
        passed skip f = record {
          on = f.on;
          from_day = omega (arith, f.from_day);
          is_at = f.is_at;
          is_chosen = f.is_chosen;
          is_later = f.is_later;
          in_time = f.in_time;
          no_earlier = λ j le lt c. elim (Bool-cases (j == day)) [
            | inl e ↦
                let same : j ≡ day = ground arith in rw same (skipped_day _ _ _ skip (rw same at c))
            | inr e ↦ f.no_earlier j (ground arith) lt c
          ];
        }

        unwrap : some (at day m) ≡ some t → at day m ≡ t
        unwrap e = cc

        here :
            not (contains days (weekday day)) || leb (at day m) floor ≡ false
            → is_past_end fixed end_date (at day m) ≡ false
            → some (at day m) ≡ some t
            → Found day t
        here stop in_time e = rw (sym (unwrap e)) (record {
          on = day;
          from_day = omega arith;
          is_at = refl;
          is_chosen = (taken_day _ _ _ stop).0;
          is_later = (taken_day _ _ _ stop).1;
          in_time = in_time;
          no_earlier = λ j le lt c. absurd (omega (arith, le, lt));
        })

    -- A chosen day whose time is to come, within the rounds, is enough where nothing ends.
    pub probe-finds :
        (day n j : ℕ)
        → day ≤ j
        → j < day + n
        → contains days (weekday j) ≡ true
        → floor < at j m
        → (t : ℕ) × (probe fixed days m floor none day n ≡ some t)
    unfolding probe
    probe-finds day zero j h k c l = absurd (omega (arith, h, k))
    probe-finds day (suc n) j h k c l =
        elim (Bool-cases (not (contains days (weekday day)) || leb (at day m) floor)) [
          | inr stop ↦ (at day m, rw stop refl)
          | inl skip ↦ elim (Bool-cases (j == day)) [
            | inr e ↦
                let (t, found) = probe-finds (day + 1) n j (ground arith) (omega arith) c l in
                (t, rw skip found)
            | inl e ↦
                let same : j ≡ day = ground arith in
                absurd (not_both _ _ (skipped_day _ _ _ skip (rw same at c)) (rw same at l))
          ]
        ]
      where
        not_both : (a b : ℕ) → a ≤ b → b < a → ⊥
        not_both a b h k = omega (arith, h, k)
