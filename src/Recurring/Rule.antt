-- ===== src/Recurring/Rule.antt =====
-- src/recurring-deliveries/recurrence.ts. A calendar day is the number of days since the epoch, and a
-- time of day a number of minutes; the text of the time is parsed already. The offset of the time
-- zone at an instant, which the platform knows, is a parameter, for zones east of Greenwich.
use drovery_backend.Base.{
  ℕ, zero, suc, ◌+◌, ◌-◌, ◌*◌, ◌/◌, ◌%◌, Bool, false, not, ◌||◌, Option, none, some, List, [], ◌∷◌,
  ◌==◌, leb, max, if◌then◌else◌,
}
use drovery_backend.Store.{RecurrenceFreq, daily, weekly}

abbrev pub Zone : Type 0
Zone = ℕ → ℕ

abbrev pub day_length : ℕ
day_length = 86400000

-- `zonedWallClockToUtc`: the wall clock as if it were UTC, less the offset at that instant.
unfoldable pub zoned_wall_clock_to_utc : Zone → ℕ → ℕ → ℕ
zoned_wall_clock_to_utc tz_offset day minute =
    day * day_length + minute * 60000 - tz_offset (day * day_length + minute * 60000)

unfoldable pub tz_calendar_date : Zone → ℕ → ℕ
tz_calendar_date tz_offset t = (t + tz_offset t) / day_length

abbrev pub day_start_utc : Zone → ℕ → ℕ
day_start_utc z t = zoned_wall_clock_to_utc z (tz_calendar_date z t) 0

abbrev pub next_day_start_utc : Zone → ℕ → ℕ
next_day_start_utc z t = zoned_wall_clock_to_utc z (tz_calendar_date z t + 1) 0

pub record RecurrenceRule : Type 0 where
  pub freq : RecurrenceFreq
  pub days_of_week : List ℕ
  pub time_of_day : Option ℕ
  pub start_date : ℕ
  pub end_date : Option ℕ

abbrev pub all_days : List ℕ
all_days = 0 ∷ 1 ∷ 2 ∷ 3 ∷ 4 ∷ 5 ∷ 6 ∷ []

abbrev pub max_day_probe : ℕ
max_day_probe = 14

-- The epoch was a Thursday; Sunday is 0.
abbrev pub weekday : ℕ → ℕ
weekday day = (day + 4) % 7

-- `days.includes(weekday)`
abbrev pub contains : List ℕ → ℕ → Bool
contains [] k = false
contains (x ∷ xs) k = x == k || contains xs k

abbrev pub days_for : RecurrenceRule → List ℕ
days_for rule = elim rule.freq [ daily ↦ all_days | weekly ↦ rule.days_of_week ]

-- On or after 00:00 of the day after the end's.
abbrev pub is_past_end : Zone → Option ℕ → ℕ → Bool
is_past_end z none t = false
is_past_end z (some e) t = leb (next_day_start_utc z e) t

-- The loop over the days, with the rounds that are left.
unfoldable pub probe : Zone → List ℕ → ℕ → ℕ → Option ℕ → ℕ → ℕ → Option ℕ
unfolding zoned_wall_clock_to_utc tz_calendar_date
probe z days minute floor end_date day zero = none
probe z days minute floor end_date day (suc n) =
    let rest = probe z days minute floor end_date (day + 1) n in
    let candidate = zoned_wall_clock_to_utc z day minute in
    if not (contains days (weekday day)) || leb candidate floor
    then rest
    else if is_past_end z end_date candidate
    then none
    else some candidate

-- Just before 00:00 of the start's day, or `after`.
abbrev pub floor_of : Zone → RecurrenceRule → ℕ → ℕ
floor_of z rule after = max after (day_start_utc z rule.start_date - 1)

abbrev pub next_on : Zone → RecurrenceRule → ℕ → List ℕ → Option ℕ → Option ℕ
next_on z rule after days none = none
next_on z rule after [] (some minute) = none
next_on z rule after (x ∷ xs) (some minute) =
    probe z (x ∷ xs) minute (floor_of z rule after) rule.end_date
      (tz_calendar_date z (floor_of z rule after)) max_day_probe

-- The earliest occurrence strictly after an instant.
unfoldable pub compute_next_occurrence : Zone → RecurrenceRule → ℕ → Option ℕ
unfolding probe
compute_next_occurrence z rule after = next_on z rule after (days_for rule) rule.time_of_day
