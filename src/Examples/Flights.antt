-- ===== src/Examples/Flights.antt =====
-- The simulation, the telemetry and the watchdog: the theorems at a delivery that waits for its
-- launch, and at one whose aircraft has gone silent.
use drovery_backend.Base.{
  ◌*◌, ◌≤◌, ◌<◌, ℕ, true, false, none, some, [], ◌∷◌, ◌≡◌, ◌⊎◌, inr, refl, arith, map, ◌==◌,
  if◌then◌else◌,
}
use drovery_backend.Base.Int.{pos}
use drovery_backend.Base.Table.{count}
use drovery_backend.Store.{
  Db, Delivery, scheduled, awaiting_handoff, delivery_failed, live, in_flight, ok, err, AppError,
  happy, HappyPhase,
}
use drovery_backend.Serviceability.{blocked, weather_hold}
use drovery_backend.Dispatch.{PartialRoute, holds}
use drovery_backend.Deliveries.{find_delivery}
use drovery_backend.Simulation.{
  KickoffJob, commit_launch, handle_stage, stopped_ids, simulation_jobs, kickoff_job, QueuedJob,
}
use drovery_backend.Simulation.{KickoffJob}
use drovery_backend.Simulation.Hold.{Round, kickoffs, kickoffs_settle}
use drovery_backend.Simulation.Settles.{HasLeft}
use drovery_backend.Simulation.Redelivery.{stage_late}
use drovery_backend.Simulation.Race.{lost_launch, stop_covers_start}
use drovery_backend.Telemetry.{
  TelemetryMessage, EnergyReading, assess_recall, recall, ingest, not_applied,
  critical_battery_percent, return_trigger_margin,
}
use drovery_backend.Telemetry.Guards.{MayDrive, Recorded, ingest-Guarded}
use drovery_backend.Telemetry.Recall.{unrecalled_in_reach, recall_mono}
use drovery_backend.Watchdog.{reap_all, silent_deliveries}
use drovery_backend.Watchdog.Scan.{scan_spares, scan_reaps}
use drovery_backend.Examples.Data.{sample, flying, delivery_at, drone_with, flat_distance, route}

abbrev waiting : Delivery
waiting = delivery_at 4 scheduled

abbrev parked : Db
parked = record sample { deliveries = waiting ∷ [] }

abbrev rain : Round
rain = record { distance = flat_distance; live = true; check = λ r. blocked weather_hold }

abbrev first_job : KickoffJob
first_job = record { delivery_id = 4; preflight_attempt = none }

kickoffs_settle_example : HasLeft 4 (kickoffs (rain ∷ rain ∷ rain ∷ rain ∷ []) first_job parked)
kickoffs_settle_example =
    kickoffs_settle (rain ∷ rain ∷ rain ∷ rain ∷ []) first_job parked waiting (ground arith) refl
      refl (ground arith) (ground arith)

stage_late_example :
    handle_stage 1 route 3 (handle_stage 1 route 4 sample).1
    ≡ (ok tt, (handle_stage 1 route 4 sample).1)
stage_late_example =
    stage_late 1 4 3 route route sample (ground arith) (ground arith) (ground arith)

abbrev own_route : PartialRoute
own_route = record {
  from_lat = some (pos 1);
  from_lng = some (pos 2);
  to_lat = none;
  to_lng = none;
}

abbrev job_one : KickoffJob
job_one = record { delivery_id = 1; preflight_attempt = none }

lost_launch_example :
    ((commit_launch job_one
        (record { tracking_source = live; drone_id = some 7 })
        sample).1.deliveries
      ≡ sample.deliveries)
    × ((j : ℕ)
        → count
            (holds j)
            (commit_launch job_one
              (record { tracking_source = live; drone_id = some 7 })
              sample).1.drones
          ≡ (if 1 == j then 0 else count (holds j) sample.drones))
lost_launch_example =
    lost_launch job_one (record { tracking_source = live; drone_id = some 7 }) 7 sample flying
      (ground arith) refl refl refl

stop_covers_start_example :
    stopped_ids 1 ≡ kickoff_job 1 ∷ map (λ (q : QueuedJob). q.id) (simulation_jobs 1 own_route)
stop_covers_start_example = stop_covers_start 1 own_route

-- Half an hour on, without a word.
abbrev later : Db
later = record sample { now = 2000000 }

abbrev never : Delivery → ℕ
never d = 0

abbrev landed : Delivery
landed = record flying { status = awaiting_handoff }

scan_spares_example :
    find_delivery 1
      (reap_all 2000000
        (silent_deliveries never later)
        (record later { deliveries = landed ∷ [] })).1
    ≡ some landed
scan_spares_example =
    scan_spares never later 1 flying (ground arith) refl (record later { deliveries = landed ∷ [] })
      landed (ground arith) refl (inr refl)

scan_reaps_example :
    (e : Delivery) × (find_delivery 1 (reap_all 2000000 (silent_deliveries never later) later).1
      ≡ some e)
    × (e.status ≡ delivery_failed)
scan_reaps_example =
    scan_reaps never later 1 flying (ground arith) refl later flying (ground arith) refl
      (ground arith) refl (ground arith)

abbrev position : TelemetryMessage
position = record {
  delivery_id = 1;
  drone_id = 7;
  phase = some (happy HappyPhase.arrived);
  lat = some (pos 1);
  lng = some (pos 2);
  drone_status = none;
  eta = none;
  altitude = none;
  battery_percent = some 40;
  airspeed = none;
  failure_reason = none;
}

ingest-Guarded_example :
    ((e : AppError) × (ingest flat_distance 5 position sample ≡ (err e, sample)))
    ⊎ ((find_delivery 1 sample ≡ none)
        × (ingest flat_distance 5 position sample ≡ (ok not_applied, sample)))
    ⊎ ((d : Delivery) × MayDrive position d sample × Recorded flat_distance 5 position sample d)
ingest-Guarded_example = ingest-Guarded flat_distance 5 position sample

abbrev reading : EnergyReading
reading = record { battery_percent = 40; lat = pos 1; lng = pos 2 }

unrecalled_in_reach_example :
    (critical_battery_percent < 40) × (1000 * return_trigger_margin ≤ 75 * 20000)
unfolding assess_recall
unrecalled_in_reach_example =
    unrecalled_in_reach flat_distance (drone_with 7 in_flight (some 1)) reading 300 refl

recall_mono_example :
    recall (
      assess_recall flat_distance
        (drone_with 7 in_flight (some 1))
        (record reading { battery_percent = 80 })
        100)
    ≡ false
unfolding assess_recall
recall_mono_example =
    recall_mono flat_distance (drone_with 7 in_flight (some 1)) reading 80 300 100 (ground arith)
      (ground arith) refl
