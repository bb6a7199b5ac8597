-- ===== src/Commands/Driven.antt =====
-- Invariants that every driver of a flight keeps: the interface that an invariant fills for the
-- simulation, the telemetry, the commands and the watchdog of src/deliveries and
-- src/delivery-watchdog.
use drovery_backend.Base.{◌≡◌, ℕ, Bool, Option, none, some, List}
use drovery_backend.Base.Table.{update_many}
use drovery_backend.Store.{
  Db, Drone, DroneCommand, DeliveryTracking, FlightFrame, AutoReturn, modify, AppError, or_throw,
}
use drovery_backend.Store.Invariants.{Keeps}
use drovery_backend.Dispatch.{Distance, DispatchRequest, dispatch, holds}
use drovery_backend.Deliveries.Stable.{IsStable}
use drovery_backend.Commands.Open.{OneOpen}

-- A change of an aircraft's readings: it stays the aircraft that it was, with its claim.
pub record IsReading (change : Drone → Drone) : Type 0 where
  pub same_drone : (d : Drone) → (change d).id ≡ d.id
  pub same_claim : (d : Drone) → (change d).active_delivery_id ≡ d.active_delivery_id
  pub same_status : (d : Drone) → (change d).status ≡ d.status

-- A write of the readings of the aircraft that holds a delivery.
abbrev pub read_drone : ℕ → (Drone → Drone) → Db → Db
read_drone id change db = record db { drones = update_many (holds id) change db.drones }

pub record IsDriven (P : Db → Type 0) : Type 0 where
  pub stable : IsStable P
  pub observes :
      (db : Db) (ts : List DeliveryTracking) (rs : List AutoReturn)
      → P db
      → P (record db { tracking = ts; auto_returns = rs })
  pub orders :
      (db : Db) (cs : List DroneCommand)
      → (OneOpen db.commands → OneOpen cs)
      → P db
      → P (record db { commands = cs })
  pub reads :
      (id : ℕ) (change : Drone → Drone) → IsReading change → Keeps P (modify (read_drone id change))
  pub dispatches :
      (distance : Distance) (enabled : Bool) (req : DispatchRequest)
      → Keeps P (dispatch distance enabled req)

-- What the flight recorder's frames do not change.
abbrev pub IgnoresFrames : (Db → Type 0) → Type 0
IgnoresFrames P = (db : Db) (fs : List FlightFrame) → P db → P (record db { flight_frames = fs })

module _ (P : Db → Type 0) where
  pub or_throw-Keeps : {A : Type 0} (o : Option A) (e : AppError) → Keeps P (or_throw o e)
  or_throw-Keeps none e db h = h
  or_throw-Keeps (some a) e db h = h
