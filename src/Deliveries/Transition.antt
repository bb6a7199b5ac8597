-- ===== src/Deliveries/Transition.antt =====
-- The conditional status update (compare and set) that every transition of
-- src/deliveries/deliveries.service.ts is.
use drovery_backend.Base.{ℕ, Bool, Option, none, some, List, ◌==◌, if◌then◌else◌}
use drovery_backend.Base.Table.{count, update_many, at, find}
use drovery_backend.Store.{
  Db, Delivery, delivery_key, DeliveryStatus, includes, FailureReason, Action, ok,
  delivery_not_found, pure, AppError, throw,
}

-- `status: { in: allowed }`
abbrev pub status_in : List DeliveryStatus → Delivery → Bool
status_in allowed d = includes allowed d.status

abbrev pub set_status : DeliveryStatus → Delivery → Delivery
set_status s d = record d { status = s }

abbrev pub set_failed : DeliveryStatus → FailureReason → Delivery → Delivery
set_failed s reason d = record d { status = s; failure_reason = some reason }

-- `delivery.updateMany({ where: { id, ... }, data })`: the number of rows that it matched.
unfoldable pub update_delivery : ℕ → (Delivery → Bool) → (Delivery → Delivery) → Action ℕ
update_delivery id guard change db = (
  ok (count (at delivery_key id guard) db.deliveries),
  record db { deliveries = update_many (at delivery_key id guard) change db.deliveries },
)

abbrev pub find_delivery : ℕ → Db → Option Delivery
find_delivery id db = find delivery_key id db.deliveries

abbrev pub current_status : ℕ → Db → Option DeliveryStatus
current_status id db = elim (find_delivery id db) [ none ↦ none | some d ↦ some d.status ]

-- `if (!delivery || delivery.userId !== userId) throw`
abbrev pub owned_by : ℕ → Option Delivery → Action Delivery
owned_by user_id none = throw delivery_not_found
owned_by user_id (some d) = if d.user_id == user_id then pure d else throw delivery_not_found

-- 404 or 409, when no row matched.
abbrev pub not_found_or : AppError → Option Delivery → Action (Option Delivery)
not_found_or conflict none = throw delivery_not_found
not_found_or conflict (some d) = throw conflict
