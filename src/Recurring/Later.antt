-- ===== src/Recurring/Later.antt =====
-- The occurrence that src/recurring-deliveries/recurrence.ts finds lies ahead, in any time zone.
use drovery_backend.Base.{
  ℕ, zero, suc, ◌+◌, ◌<◌, Bool, false, not, ◌||◌, Option, none, some, List, [], ◌∷◌, ◌≡◌, leb, max,
  Bool-cases, inl, inr, arith,
}
use drovery_backend.Recurring.Rule.{
  Zone, RecurrenceRule, probe, floor_of, next_on, compute_next_occurrence, days_for, contains,
  weekday, is_past_end, zoned_wall_clock_to_utc, tz_calendar_date, max_day_probe,
}

-- The occurrence that is found is later, in any time zone.
probe_later :
    (z : Zone) (days : List ℕ) (m floor : ℕ) (end_date : Option ℕ) (day n t : ℕ)
    → probe z days m floor end_date day n ≡ some t
    → floor < t
unfolding probe
probe_later z days m floor end_date day zero t h = cc
probe_later z days m floor end_date day (suc n) t h =
    elim (Bool-cases
      (not (contains days (weekday day)) || leb (zoned_wall_clock_to_utc z day m) floor)) [
        | inl skip ↦ probe_later z days m floor end_date (day + 1) n t (rw skip at h)
        | inr stop ↦ elim (Bool-cases (is_past_end z end_date (zoned_wall_clock_to_utc z day m))) [
          | inl past ↦ absurd (clash (rw (stop, past) at h))
          | inr in_time ↦ later _ _ (unwrap (rw (stop, in_time) at h)) (taken _ _ _ stop)
        ]
      ]
  where
    clash : ◌≡◌ {A = Option ℕ} none (some t) → ⊥
    clash e = cc

    unwrap : {a : ℕ} → some a ≡ some t → a ≡ t
    unwrap e = cc

    taken : (c : Bool) (a f : ℕ) → not c || leb a f ≡ false → f < a
    taken c a f h = ground arith

    later : (a b : ℕ) → a ≡ t → b < a → b < t
    later a b e h = omega (arith, e, h)

next_on_later :
    (z : Zone) (rule : RecurrenceRule) (after t : ℕ) (days : List ℕ) (o : Option ℕ)
    → next_on z rule after days o ≡ some t
    → after < t
next_on_later z rule after t days none h = cc
next_on_later z rule after t [] (some m) h = cc
next_on_later z rule after t (x ∷ xs) (some m) h = below _ _ (
    probe_later z (x ∷ xs) m (floor_of z rule after) rule.end_date
      (tz_calendar_date z (floor_of z rule after)) max_day_probe t h)
  where
    below : (a b : ℕ) → max a b < t → a < t
    below a b k = omega (arith, k)

pub next_is_later :
    (z : Zone) (rule : RecurrenceRule) (after t : ℕ)
    → compute_next_occurrence z rule after ≡ some t
    → after < t
unfolding compute_next_occurrence
next_is_later z rule after t h = next_on_later z rule after t (days_for rule) rule.time_of_day h
