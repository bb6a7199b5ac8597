-- ===== src/Simulation/Race.antt =====
-- A launch of src/deliveries/simulation/simulation.processor.ts that loses its delivery to a cancel,
-- and the jobs that simulation.service.ts enqueues and removes.
use drovery_backend.Base.{ℕ, false, some, ◌∷◌, ◌≡◌, [], refl, map, ◌==◌, if◌then◌else◌, arith}
use drovery_backend.Base.Table.{count, IsKeyed}
use drovery_backend.Store.{Db, Delivery, delivery_key, scheduled, status_eq}
use drovery_backend.Dispatch.{DispatchDecision, holds, release, return_to_fleet, PartialRoute}
use drovery_backend.Dispatch.Claims.{release_lem}
use drovery_backend.Deliveries.{find_delivery, status_in}
use drovery_backend.Deliveries.Settled.{update_unmatched}
use drovery_backend.Simulation.Timeline.{QueuedJob, kickoff_job, simulation_jobs, stopped_ids}
use drovery_backend.Simulation.Kickoff.{KickoffJob, launched, commit_launch}

-- A launch whose delivery is not scheduled any more changes no delivery, and takes away
-- the claims of that delivery and of no other.
pub lost_launch :
    (job : KickoffJob) (decision : DispatchDecision) (drone : ℕ) (db : Db) (d : Delivery)
    → IsKeyed delivery_key db.deliveries
    → find_delivery job.delivery_id db ≡ some d
    → status_eq d.status scheduled ≡ false
    → decision.drone_id ≡ some drone
    → let after = (commit_launch job decision db).1 in
      (after.deliveries ≡ db.deliveries)
      × ((j : ℕ)
          → count (holds j) after.drones
            ≡ (if job.delivery_id == j then 0 else count (holds j) db.drones))
unfolding commit_launch release
lost_launch job decision drone db d keyed found moved claimed =
    rw
      (
        claimed,
        update_unmatched job.delivery_id db d keyed found (status_in (scheduled ∷ []))
            (launched (record decision { drone_id = some drone })) (ground arith),
      )
      (refl, λ j. release_lem job.delivery_id j return_to_fleet db)

-- Stopping a simulation removes the jobs that starting it added, whatever the route, and the
-- kickoff: each of them and no other.
pub stop_covers_start :
    (id : ℕ) (coords : PartialRoute)
    → stopped_ids id ≡ kickoff_job id ∷ map (λ (q : QueuedJob). q.id) (simulation_jobs id coords)
unfolding stopped_ids simulation_jobs
stop_covers_start id coords = refl
