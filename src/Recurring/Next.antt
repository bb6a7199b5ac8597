-- ===== src/Recurring/Next.antt =====
-- The occurrence that src/recurring-deliveries/recurrence.ts finds in a time zone of constant offset is
-- the next one, and where the rule has no end there is one.
use drovery_backend.Base.{
  ℕ, ◌+◌, ◌-◌, ◌%◌, ◌≤◌, ◌<◌, true, false, Option, none, some, List, [], ◌∷◌, ◌≡◌, refl, ltb, max,
  Bool-cases, inl, inr, sym, ◌∙◌, arith,
}
use drovery_backend.Recurring.Rule.{
  zoned_wall_clock_to_utc, tz_calendar_date, day_start_utc, RecurrenceRule, weekday, contains,
  days_for, is_past_end, probe, floor_of, next_on, max_day_probe, compute_next_occurrence,
}
use drovery_backend.Recurring.Probe.{
  fixed, at, at_mono, at_earlier, at_later, Found, probe-Found, probe-finds,
}

module _ (offset : ℕ) where
  -- An occurrence of the rule: a chosen day at its time, from the start's day on.
  pub record IsOccurrence (rule : RecurrenceRule) (m day : ℕ) : Type 0 where
    pub on_chosen_day : contains (days_for rule) (weekday day) ≡ true
    pub started : day_start_utc (fixed offset) rule.start_date ≤ at offset day m

  pub record IsEarliest (rule : RecurrenceRule) (m after t : ℕ) : Type 0 where
    pub on : ℕ
    pub is_at : t ≡ zoned_wall_clock_to_utc (fixed offset) on m
    pub occurs : IsOccurrence rule m on
    pub is_later : after < t
    pub in_time : is_past_end (fixed offset) rule.end_date t ≡ false
    pub earliest :
        (day : ℕ)
        → IsOccurrence rule m day
        → after < zoned_wall_clock_to_utc (fixed offset) day m
        → t ≤ zoned_wall_clock_to_utc (fixed offset) day m

  bounded : (after s t : ℕ) → max after (s - 1) < t → (s ≤ t) × (after < t)
  bounded after s t h = (omega (arith, h), omega (arith, h))

  above : (after s t : ℕ) → after < t → s ≤ t → max after (s - 1) < t
  above after s t h k = omega (arith, h, k)

  apart : (a b : ℕ) → a < b → b ≤ a → ⊥
  apart a b h k = omega (arith, h, k)

  module _ (rule : RecurrenceRule) (after m : ℕ) (timed : m < 1440) where
    probed-IsEarliest :
        (t : ℕ)
        → Found offset
            (days_for rule)
            m
            (floor_of (fixed offset) rule after)
            rule.end_date
            (tz_calendar_date (fixed offset) (floor_of (fixed offset) rule after))
            t
        → IsEarliest rule m after t
    probed-IsEarliest t f = record {
      on = f.on;
      is_at = f.is_at;
      occurs = record {
        on_chosen_day = f.is_chosen;
        started = rw (sym f.is_at) (bounded _ _ _ f.is_later).0;
      };
      is_later = (bounded _ _ _ f.is_later).1;
      in_time = f.in_time;
      earliest = λ day o l.
          let in_reach = above _ _ _ l o.started in
          elim (Bool-cases
            (ltb day (tz_calendar_date (fixed offset) (floor_of (fixed offset) rule after)))) [
              | inl early ↦ absurd (
                  apart _ _ in_reach (
                    at_earlier offset day m (floor_of (fixed offset) rule after) timed
                      (ground arith)))
              | inr late ↦ elim (Bool-cases (ltb day f.on)) [
                | inl skipped ↦ absurd (
                    apart _ _ in_reach
                      (f.no_earlier day (ground arith) (ground arith) o.on_chosen_day))
                | inr on_or_after ↦ rw f.is_at (at_mono offset f.on day m (ground arith))
              ]
            ];
    }

    abbrev probed : List ℕ → Option ℕ
    probed days =
        probe (fixed offset) days m (floor_of (fixed offset) rule after) rule.end_date
          (tz_calendar_date (fixed offset) (floor_of (fixed offset) rule after)) max_day_probe

    next_on-probed :
        (days : List ℕ) (t : ℕ)
        → next_on (fixed offset) rule after days (some m) ≡ some t
        → probed days ≡ some t
    next_on-probed [] t h = cc
    next_on-probed (x ∷ xs) t h = h

    probed_chosen :
        (days : List ℕ) (k : ℕ)
        → contains days k ≡ true
        → next_on (fixed offset) rule after days (some m) ≡ probed days
    probed_chosen [] k h = cc
    probed_chosen (x ∷ xs) k h = refl

    -- In a time zone whose offset is constant and not behind UTC, such as the default Asia/Jakarta:
    -- what the function finds is an occurrence of the rule after the instant, before the end, and no
    -- other occurrence after the instant comes earlier. Nothing is said of a zone that changes its
    -- clocks.
    pub compute_next_occurrence-IsEarliest :
        (t : ℕ)
        → rule.time_of_day ≡ some m
        → compute_next_occurrence (fixed offset) rule after ≡ some t
        → IsEarliest rule m after t
    unfolding compute_next_occurrence
    compute_next_occurrence-IsEarliest t e h = probed-IsEarliest t (
        probe-Found offset (days_for rule) m (floor_of (fixed offset) rule after) rule.end_date
          (tz_calendar_date (fixed offset) (floor_of (fixed offset) rule after)) max_day_probe t
          (next_on-probed (days_for rule) t (rw e at h)))

    -- In a time zone whose offset is constant and not behind UTC: a rule without an end that names a
    -- day of the week and a time has a next occurrence, and fourteen days are enough to look at.
    pub next_occurrence_found :
        (k : ℕ)
        → rule.time_of_day ≡ some m
        → rule.end_date ≡ none
        → k < 7
        → contains (days_for rule) k ≡ true
        → (t : ℕ) × (compute_next_occurrence (fixed offset) rule after ≡ some t)
    unfolding compute_next_occurrence
    next_occurrence_found k e endless week c =
        let base = tz_calendar_date (fixed offset) (floor_of (fixed offset) rule after) in
        let j = base + 1 + (k + 7 - weekday (base + 1)) % 7 in
        let (t, found) =
          probe-finds offset (days_for rule) m (floor_of (fixed offset) rule after) none base
            max_day_probe j (omega arith) (omega arith) (rw (lands base k week) c)
            (at_later offset j m (floor_of (fixed offset) rule after) (omega arith)) in
        (t, rw e (probed_chosen (days_for rule) k c ∙ rw endless found))
      where
        lands : (b k : ℕ) → k < 7 → weekday (b + 1 + (k + 7 - weekday (b + 1)) % 7) ≡ k
        lands b k h = omega (arith, h)
