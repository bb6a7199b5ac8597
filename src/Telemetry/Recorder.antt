-- ===== src/Telemetry/Recorder.antt =====
-- src/deliveries/telemetry/flight-recorder.service.ts. The map in memory that damps the recalls is
-- the `auto_returns` of the state; the id of a command is fresh.
use drovery_backend.Base.{
  ℕ, ◌+◌, Bool, false, not, Option, none, some, ◌∷◌, ◌&&◌, ◌||◌, ◌==◌, is_some, get_or, ltb,
  if◌then◌else◌,
}
use drovery_backend.Base.Table.{find_first, update_many}
use drovery_backend.Store.{
  best_effort, Db, Drone, DeliveryStatus, DronePhase, FlightFrame, AutoReturn, includes,
  returnable_statuses, return_to_base, Action, ⊤, pure, gets, modify, when, ◌>>=◌, ◌>>◌,
}
use drovery_backend.Dispatch.{Distance, holds}
use drovery_backend.Commands.{issue}
use drovery_backend.Telemetry.Phases.{TelemetryMessage, is_exception_phase}
use drovery_backend.Telemetry.Energy.{EnergyReading, assess_recall, recall}

abbrev pub auto_return_cooldown : ℕ
auto_return_cooldown = 30000

pub record RecorderContext : Type 0 where
  pub delivery_id : ℕ
  pub drone_id : ℕ
  pub status : DeliveryStatus
  pub package_weight : ℕ

abbrev pub frame_of : RecorderContext → TelemetryMessage → ℕ → FlightFrame
frame_of ctx msg now = record {
  delivery_id = ctx.delivery_id;
  drone_id = ctx.drone_id;
  lat = msg.lat;
  lng = msg.lng;
  altitude = msg.altitude;
  battery_percent = msg.battery_percent;
  airspeed = msg.airspeed;
  phase = msg.phase;
  drone_status = msg.drone_status;
  recorded_at = now;
}

-- Write the frame exactly as received.
unfoldable pub append_frame : RecorderContext → TelemetryMessage → Action ⊤
append_frame ctx msg =
    modify (λ db. record db { flight_frames = frame_of ctx msg db.now ∷ db.flight_frames })

abbrev pub has_position : TelemetryMessage → Bool
has_position msg = is_some msg.lat && is_some msg.lng

-- The columns that a frame freshens.
abbrev pub freshened : TelemetryMessage → ℕ → Drone → Drone
freshened msg now d = record d {
  current_lat = if has_position msg then msg.lat else d.current_lat;
  current_lng = if has_position msg then msg.lng else d.current_lng;
  battery_percent = get_or msg.battery_percent d.battery_percent;
  last_seen_at = some now;
}

-- Only the aircraft that holds this delivery.
unfoldable pub update_drone_state : RecorderContext → TelemetryMessage → Action ⊤
update_drone_state ctx msg = when (has_position msg || is_some msg.battery_percent) (
    modify (λ db. record db {
      drones = update_many (holds ctx.delivery_id) (freshened msg db.now) db.drones;
    }))

abbrev pub reading_of : TelemetryMessage → Option EnergyReading
reading_of msg = elim msg.battery_percent [
  | none ↦ none
  | some b ↦ elim msg.lat [
    | none ↦ none
    | some lat ↦ elim msg.lng [
      | none ↦ none
      | some lng ↦ some (record { battery_percent = b; lat = lat; lng = lng })
    ]
  ]
]

abbrev pub reports_exception : Option DronePhase → Bool
reports_exception none = false
reports_exception (some p) = is_exception_phase p

abbrev pub last_auto_return : ℕ → Db → ℕ
last_auto_return delivery_id db =
    elim (find_first (λ (r : AutoReturn). r.delivery_id == delivery_id) db.auto_returns) [
      | none ↦ 0
      | some r ↦ r.at
    ]

abbrev pub is_cooling_down : ℕ → Db → Bool
is_cooling_down delivery_id db = ltb db.now (last_auto_return delivery_id db + auto_return_cooldown)

-- Remember the attempt, and issue a return command for which no admin stands.
unfoldable pub auto_return : ℕ → RecorderContext → Action ⊤
auto_return command_id ctx =
    modify (λ db. record db {
      auto_returns = record { delivery_id = ctx.delivery_id; at = db.now } ∷ db.auto_returns;
    })
    >> best_effort (issue command_id none ctx.delivery_id return_to_base none none)

module _ (distance : Distance) where
  unfoldable pub recall_drone : ℕ → RecorderContext → EnergyReading → Option Drone → Action ⊤
  unfolding auto_return assess_recall
  recall_drone command_id ctx reading none = pure tt
  recall_drone command_id ctx reading (some drone) =
      when (recall (assess_recall distance drone reading ctx.package_weight))
        (auto_return command_id ctx)

  unfoldable pub recall_if_needed :
      ℕ → RecorderContext → TelemetryMessage → Option EnergyReading → Action ⊤
  unfolding recall_drone
  recall_if_needed command_id ctx msg none = pure tt
  recall_if_needed command_id ctx msg (some reading) = do
    cooling ← gets (is_cooling_down ctx.delivery_id)
    drone ← gets (λ db. find_first (holds ctx.delivery_id) db.drones)
    when
        (not (reports_exception msg.phase)
          && (includes returnable_statuses ctx.status && not cooling))
        (recall_drone command_id ctx reading drone)

  unfoldable pub maybe_recall : ℕ → RecorderContext → TelemetryMessage → Action ⊤
  unfolding recall_if_needed
  maybe_recall command_id ctx msg = recall_if_needed command_id ctx msg (reading_of msg)

  -- Append, freshen, recall; none of them fails the ingest.
  unfoldable pub record_frame : ℕ → RecorderContext → TelemetryMessage → Action ⊤
  unfolding append_frame update_drone_state maybe_recall
  record_frame command_id ctx msg =
      append_frame ctx msg >> update_drone_state ctx msg >> maybe_recall command_id ctx msg
