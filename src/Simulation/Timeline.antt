-- ===== src/Simulation/Timeline.antt =====
-- src/deliveries/simulation/simulation.constants.ts and the job lists of simulation.service.ts. The
-- coordinates are in micro-degrees; the point of a tick is a fraction of them.
use drovery_backend.Base.{
  ℕ, zero, suc, ◌+◌, ◌-◌, ◌*◌, ◌/◌, Option, none, some, List, [], ◌∷◌, ◌++◌, get_or, length,
}
use drovery_backend.Base.Int.{ℤ, pos, negsuc, ◌+ℤ◌, scale}
use drovery_backend.Store.{
  DeliveryStatus, confirmed, drone_assigned, pickup_in_progress, in_transit, awaiting_handoff,
  delivered,
}
use drovery_backend.Dispatch.{MissionRoute, PartialRoute}

pub record SimStage : Type 0 where
  pub status : DeliveryStatus
  pub delay : ℕ

abbrev pub stages : List SimStage
stages =
    record { status = confirmed; delay = 10000 }
    ∷ record { status = drone_assigned; delay = 25000 }
    ∷ record { status = pickup_in_progress; delay = 45000 }
    ∷ record { status = in_transit; delay = 70000 }
    ∷ record { status = awaiting_handoff; delay = 120000 }
    ∷ []

abbrev pub get_elem? : {A : Type 0} → List A → ℕ → Option A
get_elem? [] i = none
get_elem? (x ∷ xs) zero = some x
get_elem? (x ∷ xs) (suc i) = get_elem? xs i

abbrev pub default_coords : MissionRoute
default_coords = record {
  from_lat = negsuc 6902999;
  from_lng = pos 107615000;
  to_lat = negsuc 6921999;
  to_lng = pos 107607000;
}

unfoldable pub resolve_coords : PartialRoute → MissionRoute
resolve_coords c = record {
  from_lat = get_or c.from_lat default_coords.from_lat;
  from_lng = get_or c.from_lng default_coords.from_lng;
  to_lat = get_or c.to_lat default_coords.to_lat;
  to_lng = get_or c.to_lng default_coords.to_lng;
}

pub record Point : Type 0 where
  pub lat : ℤ
  pub lng : ℤ

-- `+ 0.005` on both coordinates.
abbrev pub near_pickup : MissionRoute → Point
near_pickup c = record { lat = c.from_lat +ℤ pos 5000; lng = c.from_lng +ℤ pos 5000 }

unfoldable pub drone_position_for_stage : DeliveryStatus → MissionRoute → Option Point
drone_position_for_stage drone_assigned c = some (near_pickup c)
drone_position_for_stage pickup_in_progress c = some (record { lat = c.from_lat; lng = c.from_lng })
drone_position_for_stage in_transit c = some (record { lat = c.from_lat; lng = c.from_lng })
drone_position_for_stage awaiting_handoff c = some (record { lat = c.to_lat; lng = c.to_lng })
drone_position_for_stage delivered c = some (record { lat = c.to_lat; lng = c.to_lng })
drone_position_for_stage _ c = none

abbrev pub position_update : ℕ
position_update = 5000

pub record Window : Type 0 where
  pub start : ℕ
  pub end : ℕ
  pub from : Point
  pub to : Point

-- A point that is `lat / steps`, `lng / steps`.
pub record PositionTick : Type 0 where
  pub delay : ℕ
  pub lat : ℤ
  pub lng : ℤ
  pub steps : ℕ

abbrev pub between : ℕ → ℕ → ℤ → ℤ → ℤ
between i steps a b = scale (steps - i) a +ℤ scale i b

-- `for (let i = 1; i < steps; i++)`, with the rounds that are left.
unfoldable pub ticks_from : Window → ℕ → ℕ → ℕ → List PositionTick
ticks_from w steps i zero = []
ticks_from w steps i (suc n) =
    record {
      delay = w.start + i * position_update;
      lat = between i steps w.from.lat w.to.lat;
      lng = between i steps w.from.lng w.to.lng;
      steps = steps;
    }
    ∷ ticks_from w steps (i + 1) n

abbrev pub window_steps : Window → ℕ
window_steps w = (w.end - w.start) / position_update

unfoldable pub window_ticks : Window → List PositionTick
unfolding ticks_from
window_ticks w = ticks_from w (window_steps w) 1 (window_steps w - 1)

abbrev pub to_pickup : MissionRoute → Window
to_pickup c = record {
  start = 25000;
  end = 45000;
  from = near_pickup c;
  to = record { lat = c.from_lat; lng = c.from_lng };
}

abbrev pub to_dropoff : MissionRoute → Window
to_dropoff c = record {
  start = 70000;
  end = 120000;
  from = record { lat = c.from_lat; lng = c.from_lng };
  to = record { lat = c.to_lat; lng = c.to_lng };
}

unfoldable pub build_position_ticks : MissionRoute → List PositionTick
unfolding window_ticks
build_position_ticks c = window_ticks (to_pickup c) ++ window_ticks (to_dropoff c)

unfoldable pub position_tick_count : ℕ
unfolding build_position_ticks
position_tick_count = length (build_position_ticks default_coords)

-- The deterministic ids of the queue: `<id>:stage:<i>`, `<id>:pos:<j>`, `<id>-kickoff` and
-- `<id>-kickoff-r<n>`.
pub data JobId : Type 0 where
  stage_job position_job : ℕ → ℕ → JobId
  kickoff_job : ℕ → JobId
  retry_job : ℕ → ℕ → JobId

pub record QueuedJob : Type 0 where
  pub id : JobId
  pub delay : ℕ

unfoldable pub stage_jobs : ℕ → ℕ → List SimStage → List QueuedJob
stage_jobs delivery_id i [] = []
stage_jobs delivery_id i (s ∷ rest) =
    record { id = stage_job delivery_id i; delay = s.delay } ∷ stage_jobs delivery_id (i + 1) rest

unfoldable pub position_jobs : ℕ → ℕ → List PositionTick → List QueuedJob
position_jobs delivery_id j [] = []
position_jobs delivery_id j (t ∷ rest) =
    record { id = position_job delivery_id j; delay = t.delay }
    ∷ position_jobs delivery_id (j + 1) rest

-- The bulk that `startSimulation` adds.
unfoldable pub simulation_jobs : ℕ → PartialRoute → List QueuedJob
unfolding stage_jobs position_jobs build_position_ticks resolve_coords
simulation_jobs delivery_id coords =
    stage_jobs delivery_id 0 stages
    ++ position_jobs delivery_id 0 (build_position_ticks (resolve_coords coords))

-- The job that `scheduleKickoff` adds, at `now`.
unfoldable pub kickoff_at : ℕ → ℕ → ℕ → QueuedJob
kickoff_at delivery_id scheduled_for now = record {
  id = kickoff_job delivery_id;
  delay = scheduled_for - now;
}

abbrev pub preflight_retry_delay : ℕ
preflight_retry_delay = 900000

-- The job that `deferKickoff` adds.
unfoldable pub deferred_kickoff : ℕ → ℕ → QueuedJob
deferred_kickoff delivery_id attempt = record {
  id = retry_job delivery_id attempt;
  delay = preflight_retry_delay;
}

-- `for (let i = 0; i < n; i++) ids.push(...)`, with the rounds that are left.
unfoldable pub numbered : (ℕ → JobId) → ℕ → ℕ → List JobId
numbered id i zero = []
numbered id i (suc n) = id i ∷ numbered id (i + 1) n

-- The ids that `stopSimulation` removes.
unfoldable pub stopped_ids : ℕ → List JobId
unfolding numbered position_tick_count
stopped_ids delivery_id =
    kickoff_job delivery_id ∷ numbered (stage_job delivery_id) 0 (length stages)
    ++ numbered (position_job delivery_id) 0 position_tick_count
