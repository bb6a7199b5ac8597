-- ===== src/Store/Rows.antt =====
-- The rows of prisma/schema.prisma, with the columns that the modelled code reads or writes, and
-- the database. Ids are uuids that are only compared, and stand as numbers; money is in cents,
-- weight in grams, distance in metres, time in milliseconds, coordinates in micro-degrees.
use drovery_backend.Base.{ℕ, Bool, Option, List}
use drovery_backend.Base.Int.{ℤ}
use drovery_backend.Base.Text.{Text}
use drovery_backend.Store.Status.{
  DeliveryStatus, FailureReason, TrackingSource, DroneStatus, TxnType, TxnReason, ReferralStatus,
  DiscountType, RedemptionStatus, PaymentStatus, CommandType, CommandStatus, OutboxStatus,
  IdempotencyKey, DronePhase,
}

pub record Delivery : Type 0 where
  pub id : ℕ
  pub tracking_id : ℕ
  pub user_id : ℕ
  pub status : DeliveryStatus
  pub tracking_source : TrackingSource
  pub assigned_drone_id : Option ℕ
  pub failure_reason : Option FailureReason
  pub from_lat : Option ℤ
  pub from_lng : Option ℤ
  pub to_lat : Option ℤ
  pub to_lng : Option ℤ
  pub package_weight : ℕ
  pub scheduled_for : Option ℕ
  pub estimated_price : ℕ
  pub handoff_code_hash : Option ℕ
  pub handoff_attempts : ℕ
  pub handoff_confirmed_at : Option ℕ
  pub created_at : ℕ

pub record Drone : Type 0 where
  pub id : ℕ
  pub status : DroneStatus
  pub airworthy : Bool
  pub max_payload : ℕ
  pub battery_percent : ℕ
  pub range : ℕ
  pub home_base_lat : ℤ
  pub home_base_lng : ℤ
  pub current_lat : Option ℤ
  pub current_lng : Option ℤ
  pub maintenance_due_at : Option ℕ
  pub active_delivery_id : Option ℕ
  pub last_seen_at : Option ℕ

pub record User : Type 0 where
  pub id : ℕ
  pub credit_balance : ℕ

pub record WalletTransaction : Type 0 where
  pub user_id : ℕ
  pub type : TxnType
  pub reason : TxnReason
  pub amount : ℕ
  pub balance_after : ℕ
  pub delivery_id : Option ℕ
  pub referral_id : Option ℕ
  pub idempotency_key : Option IdempotencyKey
  pub created_at : ℕ

pub record Referral : Type 0 where
  pub id : ℕ
  pub referrer_id : ℕ
  pub referee_id : ℕ
  pub status : ReferralStatus
  pub referrer_reward : Option ℕ
  pub referee_reward : Option ℕ
  pub rewarded_at : Option ℕ

-- `discount_value` is in hundredths: of a percent, or of a dollar.
pub record PromoCode : Type 0 where
  pub id : ℕ
  pub code : List ℕ
  pub discount_type : DiscountType
  pub discount_value : ℤ
  pub min_order_total : ℕ
  pub max_discount : Option ℤ
  pub starts_at : Option ℕ
  pub ends_at : Option ℕ
  pub active : Bool
  pub max_redemptions : Option ℕ
  pub times_redeemed : ℕ
  pub per_user_limit : ℕ

pub record PromoRedemption : Type 0 where
  pub promo_code_id : ℕ
  pub user_id : ℕ
  pub delivery_id : ℕ
  pub discount_amount : ℕ
  pub original_total : ℕ
  pub final_total : ℕ
  pub status : RedemptionStatus
  pub redeemed_at : ℕ
  pub released_at : Option ℕ

pub record Payment : Type 0 where
  pub delivery_id : ℕ
  pub stripe_payment_intent_id : ℕ
  pub amount : ℕ
  pub status : PaymentStatus

pub record DroneCommand : Type 0 where
  pub id : ℕ
  pub delivery_id : ℕ
  pub drone_id : ℕ
  pub type : CommandType
  pub reason : FailureReason
  pub status : CommandStatus
  pub issued_by_user_id : Option ℕ
  pub applied_transition : Bool
  pub expires_at : ℕ
  pub fetched_at : Option ℕ
  pub acked_at : Option ℕ
  pub created_at : ℕ

-- The payload of a referral event is the referee's id, which may be missing; `event_type` is
-- `true` for the one type that has a handler.
pub record OutboxEvent : Type 0 where
  pub id : ℕ
  pub is_referral_reward : Bool
  pub referee_user_id : Option ℕ
  pub idempotency_key : ℕ
  pub status : OutboxStatus
  pub attempts : ℕ
  pub claimed_at : Option ℕ
  pub processed_at : Option ℕ

pub record TrackingIdEntry : Type 0 where
  pub tracking_id : ℕ
  pub delivery_id : ℕ

-- A label of the map: the drone's own words, or the catalog's text for a stage.
pub data DroneLabel : Type 0 where
  own_words : Text → DroneLabel
  stage_label : DeliveryStatus → DroneLabel

-- The latest snapshot of a flight.
pub record DeliveryTracking : Type 0 where
  pub delivery_id : ℕ
  pub drone_lat : Option ℤ
  pub drone_lng : Option ℤ
  pub drone_status : Option DroneLabel
  pub eta : Option ℕ
  pub updated_at : ℕ

-- A telemetry frame as it was received.
pub record FlightFrame : Type 0 where
  pub delivery_id : ℕ
  pub drone_id : ℕ
  pub lat : Option ℤ
  pub lng : Option ℤ
  pub altitude : Option ℤ
  pub battery_percent : Option ℕ
  pub airspeed : Option ℕ
  pub phase : Option DronePhase
  pub drone_status : Option Text
  pub recorded_at : ℕ

-- An entry of `lastAutoReturn`, the flight recorder's map in memory.
pub record AutoReturn : Type 0 where
  pub delivery_id : ℕ
  pub at : ℕ

-- What leaves the process on the modelled paths: queue writes, notifications with the pushed
-- status, and tracking writes.
pub data Effect : Type 0 where
  stop_simulation start_simulation : ℕ → Effect
  schedule_kickoff defer_kickoff : ℕ → ℕ → Effect
  announce : ℕ → DeliveryStatus → Option FailureReason → Effect
  publish_update : ℕ → Option DeliveryStatus → Option ℤ → Option ℤ → Effect
  notify_stage : ℕ → DeliveryStatus → Effect
  auto_proof : ℕ → Effect
  push_command : ℕ → Effect

pub data RecurrenceFreq : Type 0 where
  daily weekly : RecurrenceFreq

-- The columns that the scan reads or writes; the time of day is in minutes, where its text is one.
pub record RecurringDelivery : Type 0 where
  pub id : ℕ
  pub user_id : ℕ
  pub active : Bool
  pub freq : RecurrenceFreq
  pub days_of_week : List ℕ
  pub time_of_day : Option ℕ
  pub start_date : ℕ
  pub end_date : Option ℕ
  pub next_run_at : Option ℕ
  pub last_materialized_at : Option ℕ
  pub last_delivery_id : Option ℕ

-- `effects` has the latest first; `now` is the clock that a call reads.
pub record Db : Type 0 where
  pub now : ℕ
  pub deliveries : List Delivery
  pub registry : List TrackingIdEntry
  pub drones : List Drone
  pub users : List User
  pub wallet_transactions : List WalletTransaction
  pub referrals : List Referral
  pub promo_codes : List PromoCode
  pub redemptions : List PromoRedemption
  pub payments : List Payment
  pub commands : List DroneCommand
  pub outbox_events : List OutboxEvent
  pub webhook_events : List ℕ
  pub tracking : List DeliveryTracking
  pub flight_frames : List FlightFrame
  pub auto_returns : List AutoReturn
  pub recurring_deliveries : List RecurringDelivery
  pub effects : List Effect

abbrev pub delivery_key : Delivery → ℕ
delivery_key d = d.id

abbrev pub drone_key : Drone → ℕ
drone_key d = d.id

abbrev pub user_key : User → ℕ
user_key u = u.id

abbrev pub command_key : DroneCommand → ℕ
command_key c = c.id

abbrev pub event_key : OutboxEvent → ℕ
event_key e = e.id

abbrev pub code_key : PromoCode → ℕ
code_key c = c.id

abbrev pub referee_key : Referral → ℕ
referee_key r = r.referee_id

abbrev pub payment_key : Payment → ℕ
payment_key p = p.delivery_id
