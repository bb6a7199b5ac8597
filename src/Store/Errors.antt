-- ===== src/Store/Errors.antt =====
-- What the modelled code throws: the localized exceptions of
-- src/common/exceptions/app-exception.ts by their message keys, the promo rejections, and the
-- database's unique violations (P2002) by the constraint that was hit.
use drovery_backend.Base.{ℕ}

pub data PromoRejectReason : Type 0 where
  invalid inactive not_started expired globally_maxed per_user_exceeded min_not_met :
      PromoRejectReason

pub data Constraint : Type 0 where
  wallet_idempotency_key tracking_id promo_active_per_user promo_delivery open_command
        outbox_idempotency_key webhook_event_id payment_delivery delivery_id :
      Constraint

pub data AppError : Type 0 where
  delivery_not_found cancel_bad_status cancel_race_bad_status fail_bad_status : AppError
  handoff_already_completed handoff_not_awaiting handoff_locked handoff_invalid_code : AppError
  insufficient_credits weight_exceeds_cap schedule_invalid_date schedule_too_far : AppError
  unresolved_location not_serviceable weather_hold tracking_id_alloc_failed : AppError
  coords_address_mismatch : AppError
  dispatch_no_capacity dispatch_unavailable : AppError
  command_not_found command_live_only command_no_drone command_illegal_for_status : AppError
  command_limit_reached command_already_pending command_drone_not_assigned command_expired :
      AppError
  command_not_awaiting_ack : AppError
  telemetry_latlng_pair_required telemetry_not_live telemetry_drone_not_assigned : AppError
  outbox_missing_referee outbox_no_handler : AppError
  promo_rejected : PromoRejectReason → AppError
  unique_violation : Constraint → AppError
  row_not_found : AppError

-- The HTTP status of a promo rejection: cap conflicts are 409, the rest 422.
abbrev pub promo_http_status : PromoRejectReason → ℕ
promo_http_status globally_maxed = 409
promo_http_status per_user_exceeded = 409
promo_http_status _ = 422
