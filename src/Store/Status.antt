-- ===== src/Store/Status.antt =====
-- The enumerations of prisma/schema.prisma, and the sets of delivery statuses of
-- src/deliveries/delivery-exceptions.ts, src/deliveries/simulation/simulation.constants.ts,
-- src/delivery-watchdog/watchdog.constants.ts and src/deliveries/deliveries.service.ts.
use drovery_backend.Base.{
  ℕ, suc, Bool, true, false, ◌||◌, Option, none, some, List, [], ◌∷◌, ◌==◌, if◌then◌else◌, take,
}

pub data DeliveryStatus : Type 0 where
  scheduled pending confirmed drone_assigned pickup_in_progress in_transit awaiting_handoff :
      DeliveryStatus
  delivered canceled returning delivery_failed returned_to_base : DeliveryStatus

-- The place of a status in the enumeration.
abbrev pub status_index : DeliveryStatus → ℕ
status_index scheduled = 0
status_index pending = 1
status_index confirmed = 2
status_index drone_assigned = 3
status_index pickup_in_progress = 4
status_index in_transit = 5
status_index awaiting_handoff = 6
status_index delivered = 7
status_index canceled = 8
status_index returning = 9
status_index delivery_failed = 10
status_index returned_to_base = 11

-- `a === b` on statuses.
abbrev pub status_eq : DeliveryStatus → DeliveryStatus → Bool
status_eq a b = status_index a == status_index b

-- `xs.includes(s)`
abbrev pub includes : List DeliveryStatus → DeliveryStatus → Bool
includes [] s = false
includes (x ∷ xs) s = status_eq x s || includes xs s

-- `order.indexOf(s)`, with `none` for -1.
abbrev pub index_of : List DeliveryStatus → DeliveryStatus → Option ℕ
index_of [] s = none
index_of (x ∷ xs) s =
    if status_eq x s then some 0 else elim (index_of xs s) [ none ↦ none | some i ↦ some (suc i) ]

abbrev pub active_statuses : List DeliveryStatus
active_statuses =
    pending ∷ confirmed ∷ drone_assigned ∷ pickup_in_progress ∷ in_transit ∷ awaiting_handoff
    ∷ returning ∷ []

abbrev pub cancelable_statuses : List DeliveryStatus
cancelable_statuses = scheduled ∷ pending ∷ confirmed ∷ []

abbrev pub failable_statuses : List DeliveryStatus
failable_statuses =
    drone_assigned ∷ pickup_in_progress ∷ in_transit ∷ awaiting_handoff ∷ returning ∷ []

abbrev pub terminal_statuses : List DeliveryStatus
terminal_statuses = delivered ∷ canceled ∷ delivery_failed ∷ returned_to_base ∷ []

abbrev pub returnable_statuses : List DeliveryStatus
returnable_statuses = pickup_in_progress ∷ in_transit ∷ awaiting_handoff ∷ []

abbrev pub position_frozen_statuses : List DeliveryStatus
position_frozen_statuses =
    canceled ∷ awaiting_handoff ∷ delivered ∷ returned_to_base ∷ delivery_failed ∷ []

abbrev pub watchdog_stuck_statuses : List DeliveryStatus
watchdog_stuck_statuses = drone_assigned ∷ pickup_in_progress ∷ in_transit ∷ returning ∷ []

abbrev pub status_order : List DeliveryStatus
status_order =
    pending ∷ confirmed ∷ drone_assigned ∷ pickup_in_progress ∷ in_transit ∷ awaiting_handoff
    ∷ delivered ∷ []

-- The statuses strictly before `target` on the happy path: the only ones it may advance from.
abbrev pub statuses_before : DeliveryStatus → List DeliveryStatus
statuses_before target = elim (index_of status_order target) [
  | none ↦ []
  | some i ↦ take i status_order
]

pub data FailureReason : Type 0 where
  recipient_unavailable weather_abort unsafe_drop_zone mechanical admin_abort other : FailureReason

-- A drone or service fault refunds the customer; a recipient's fault does not.
abbrev pub is_drone_fault_reason : FailureReason → Bool
is_drone_fault_reason recipient_unavailable = false
is_drone_fault_reason _ = true

pub data MessageKey : Type 0 where
  returning_key returned_key : MessageKey
  reason_key : FailureReason → MessageKey

-- The catalog key of an exception's user-facing text.
abbrev pub exception_message_key : DeliveryStatus → Option FailureReason → MessageKey
exception_message_key returning r = returning_key
exception_message_key returned_to_base r = returned_key
exception_message_key _ none = reason_key other
exception_message_key _ (some r) = reason_key r

pub data TrackingSource : Type 0 where
  simulated live : TrackingSource

abbrev pub is_live : TrackingSource → Bool
is_live simulated = false
is_live live = true

pub data DroneStatus : Type 0 where
  available in_flight charging maintenance grounded : DroneStatus

abbrev pub is_available : DroneStatus → Bool
is_available available = true
is_available _ = false

pub data TxnType : Type 0 where
  credit debit : TxnType

pub data TxnReason : Type 0 where
  referral_reward referee_reward checkout_spend checkout_refund : TxnReason

pub data ReferralStatus : Type 0 where
  pending rewarded : ReferralStatus

pub data DiscountType : Type 0 where
  percent fixed : DiscountType

pub data RedemptionStatus : Type 0 where
  redeemed released : RedemptionStatus

pub data PaymentStatus : Type 0 where
  pending processing completed failed refunded : PaymentStatus

pub data CommandType : Type 0 where
  return_to_base abort : CommandType

pub data CommandStatus : Type 0 where
  pending fetched acked rejected expired : CommandStatus

pub data OutboxStatus : Type 0 where
  pending processing processed failed : OutboxStatus

-- An idempotency key of the wallet ledger: a prefix and the id that it is made from.
pub data IdempotencyKey : Type 0 where
  debit_of refund_of exception_refund_of referrer_of referee_of : ℕ → IdempotencyKey

-- The drone's own vocabulary: five phases of the happy path, and three exceptions.
pub data HappyPhase : Type 0 where
  confirmed assigned pickup in_transit arrived : HappyPhase

pub data ExceptionPhase : Type 0 where
  failed returning returned : ExceptionPhase

pub data DronePhase : Type 0 where
  happy : HappyPhase → DronePhase
  exception : ExceptionPhase → DronePhase
