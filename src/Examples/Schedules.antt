-- ===== src/Examples/Schedules.antt =====
-- The recurring deliveries: the theorems at a weekly rule in the time zone of Jakarta.
use drovery_backend.Base.{ℕ, true, none, some, [], ◌∷◌, ◌≡◌, refl, arith}
use drovery_backend.Store.{Db, RecurringDelivery, weekly, ok}
use drovery_backend.Booking.{CreateRequest}
use drovery_backend.Recurring.{Zone, compute_next_occurrence, to_rule, materialize_schedule}
use drovery_backend.Recurring.Probe.{fixed}
use drovery_backend.Recurring.Next.{
  IsEarliest, compute_next_occurrence-IsEarliest, next_occurrence_found,
}
use drovery_backend.Recurring.Once.{materialize_once}
use drovery_backend.Examples.Data.{sample, flat_distance, flags, booking}

-- Mondays and Thursdays at 09:30.
abbrev weekly_run : RecurringDelivery
weekly_run = record {
  id = 1;
  user_id = 1;
  active = true;
  freq = weekly;
  days_of_week = 1 ∷ 4 ∷ [];
  time_of_day = some 570;
  start_date = 864000000;
  end_date = none;
  next_run_at = some 1218600000;
  last_materialized_at = none;
  last_delivery_id = none;
}

abbrev jakarta : Zone
jakarta = fixed 25200000

-- The 10th day is a Sunday.
monday_morning : compute_next_occurrence jakarta (to_rule weekly_run) 900000000 ≡ some 959400000
unfolding compute_next_occurrence
monday_morning = refl

compute_next_occurrence-IsEarliest_example :
    IsEarliest 25200000 (to_rule weekly_run) 570 900000000 959400000
compute_next_occurrence-IsEarliest_example =
    compute_next_occurrence-IsEarliest 25200000 (to_rule weekly_run) 900000000 570 (ground arith)
      959400000 refl monday_morning

next_occurrence_found_example :
    (t : ℕ) × (compute_next_occurrence jakarta (to_rule weekly_run) 900000000 ≡ some t)
next_occurrence_found_example =
    next_occurrence_found 25200000 (to_rule weekly_run) 900000000 570 (ground arith) 4 refl refl
      (ground arith) refl

abbrev scheduled_order : RecurringDelivery → ℕ → CreateRequest
scheduled_order s t = booking

abbrev scheduled_db : Db
scheduled_db = record sample { recurring_deliveries = weekly_run ∷ [] }

materialize_once_example :
    materialize_schedule flat_distance flags jakarta scheduled_order weekly_run 1218590000
      1240190000
      (materialize_schedule flat_distance flags jakarta scheduled_order weekly_run 1218580000
        1240180000 scheduled_db).1
    ≡ (
      ok tt,
      (materialize_schedule flat_distance flags jakarta scheduled_order weekly_run 1218580000
          1240180000 scheduled_db).1,
    )
materialize_once_example =
    materialize_once flat_distance flags jakarta scheduled_order weekly_run weekly_run 1218600000
      1218580000 1218590000 1240180000 1240190000 scheduled_db refl refl refl (ground arith)
