-- ===== src/Tracking.antt =====
-- src/deliveries/tracking/tracking.service.ts, `updateTracking` without the hot store, and the
-- publisher of src/deliveries/tracking/tracking.publisher.ts.
use drovery_backend.Base.{ℕ, Bool, Option, none, some, ◌∷◌, ◌==◌, leb, if◌then◌else◌}
use drovery_backend.Base.Int.{ℤ}
use drovery_backend.Base.Table.{count, update_many}
use drovery_backend.Store.{
  DeliveryTracking, DroneLabel, DeliveryStatus, publish_update, Action, ⊤, modify, best_effort,
  emit,
}

pub record TrackingPosition : Type 0 where
  pub drone_lat : Option ℤ
  pub drone_lng : Option ℤ
  pub drone_status : Option DroneLabel
  pub eta : Option ℕ

-- A field that is undefined in an update leaves its column.
abbrev pub or_keep : {A : Type 0} → Option A → Option A → Option A
or_keep none old = old
or_keep (some a) old = some a

abbrev pub is_tracking_of : ℕ → DeliveryTracking → Bool
is_tracking_of delivery_id t = t.delivery_id == delivery_id

abbrev pub move_tracking : TrackingPosition → ℕ → DeliveryTracking → DeliveryTracking
move_tracking p now t = record t {
  drone_lat = or_keep p.drone_lat t.drone_lat;
  drone_lng = or_keep p.drone_lng t.drone_lng;
  drone_status = or_keep p.drone_status t.drone_status;
  eta = or_keep p.eta t.eta;
  updated_at = now;
}

abbrev pub tracking_row : ℕ → TrackingPosition → ℕ → DeliveryTracking
tracking_row delivery_id p now = record {
  delivery_id = delivery_id;
  drone_lat = p.drone_lat;
  drone_lng = p.drone_lng;
  drone_status = p.drone_status;
  eta = p.eta;
  updated_at = now;
}

-- `deliveryTracking.upsert`
unfoldable pub update_tracking : ℕ → TrackingPosition → Action ⊤
update_tracking delivery_id p = modify (λ db. record db {
  tracking =
      if leb 1 (count (is_tracking_of delivery_id) db.tracking)
      then update_many (is_tracking_of delivery_id) (move_tracking p db.now) db.tracking
      else tracking_row delivery_id p db.now ∷ db.tracking;
})

-- A failure to publish is only logged.
abbrev pub publish : ℕ → Option DeliveryStatus → Option ℤ → Option ℤ → Action ⊤
publish delivery_id status lat lng = best_effort (emit (publish_update delivery_id status lat lng))
