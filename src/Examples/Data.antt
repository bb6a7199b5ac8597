-- ===== src/Examples/Data.antt =====
-- A small database: two users, four deliveries, two aircraft, one promo code and one payment.
use drovery_backend.Base.{ℕ, true, false, Option, none, some, [], ◌∷◌, length}
use drovery_backend.Base.Int.{pos}
use drovery_backend.Base.Text.{Text}
use drovery_backend.Store.{
  Db, Delivery, DeliveryStatus, in_transit, awaiting_handoff, delivered, Drone, DroneStatus,
  available, in_flight, WalletTransaction, credit, referral_reward, PromoCode, percent,
  PaymentStatus, live, Referral, ReferralStatus, OutboxEvent, OutboxStatus, ok,
}
use drovery_backend.Dispatch.{Distance, MissionRoute}
use drovery_backend.Pricing.{small}
use drovery_backend.Payments.{succeeded}
use drovery_backend.Booking.{CreateRequest, Flags}
use drovery_backend.Serviceability.{clear_to_fly}

abbrev pub flat_distance : Distance
flat_distance a b c d = 1000

abbrev pub digest : Text → ℕ
digest code = length code

abbrev pub delivery_at : ℕ → DeliveryStatus → Delivery
delivery_at id status = record {
  id = id;
  tracking_id = 100;
  user_id = 1;
  status = status;
  tracking_source = live;
  assigned_drone_id = some 7;
  failure_reason = none;
  from_lat = some (pos 1);
  from_lng = some (pos 2);
  to_lat = some (pos 3);
  to_lng = some (pos 4);
  package_weight = 300;
  scheduled_for = none;
  estimated_price = 1000;
  handoff_code_hash = some 2;
  handoff_attempts = 0;
  handoff_confirmed_at = none;
  created_at = 10;
}

abbrev pub drone_with : ℕ → DroneStatus → Option ℕ → Drone
drone_with id status claim = record {
  id = id;
  status = status;
  airworthy = true;
  max_payload = 2000;
  battery_percent = 90;
  range = 20000;
  home_base_lat = pos 0;
  home_base_lng = pos 0;
  current_lat = none;
  current_lng = none;
  maintenance_due_at = none;
  active_delivery_id = claim;
  last_seen_at = none;
}

abbrev pub code_ten : PromoCode
code_ten = record {
  id = 1;
  code = 84 ∷ 69 ∷ 78 ∷ [];
  discount_type = percent;
  discount_value = pos 1000;
  min_order_total = 0;
  max_discount = none;
  starts_at = none;
  ends_at = none;
  active = true;
  max_redemptions = some 5;
  times_redeemed = 0;
  per_user_limit = 1;
}

abbrev pub welcome : WalletTransaction
welcome = record {
  user_id = 1;
  type = credit;
  reason = referral_reward;
  amount = 500;
  balance_after = 500;
  delivery_id = none;
  referral_id = none;
  idempotency_key = none;
  created_at = 5;
}

abbrev pub friend : Referral
friend = record {
  id = 1;
  referrer_id = 2;
  referee_id = 1;
  status = ReferralStatus.pending;
  referrer_reward = none;
  referee_reward = none;
  rewarded_at = none;
}

abbrev pub reward_event : OutboxEvent
reward_event = record {
  id = 1;
  is_referral_reward = true;
  referee_user_id = some 1;
  idempotency_key = 1;
  status = OutboxStatus.processing;
  attempts = 1;
  claimed_at = some 10;
  processed_at = none;
}

abbrev pub flying : Delivery
flying = delivery_at 1 in_transit

abbrev pub at_door : Delivery
at_door = delivery_at 2 awaiting_handoff

abbrev pub done : Delivery
done = record (delivery_at 3 delivered) { handoff_confirmed_at = some 50 }

abbrev pub sample : Db
sample = record {
  now = 100000;
  deliveries = flying ∷ at_door ∷ done ∷ [];
  registry = [];
  drones = drone_with 7 in_flight (some 1) ∷ drone_with 8 available none ∷ [];
  users = record { id = 1; credit_balance = 500 } ∷ record { id = 2; credit_balance = 0 } ∷ [];
  wallet_transactions = welcome ∷ [];
  referrals = friend ∷ [];
  promo_codes = code_ten ∷ [];
  redemptions = [];
  payments =
      record {
        delivery_id = 1;
        stripe_payment_intent_id = 9;
        amount = 1000;
        status = PaymentStatus.completed;
      }
      ∷ [];
  commands = [];
  outbox_events = reward_event ∷ [];
  webhook_events = [];
  tracking = [];
  flight_frames = [];
  auto_returns = [];
  recurring_deliveries = [];
  effects = [];
}

abbrev pub route : MissionRoute
route = record { from_lat = pos 1; from_lng = pos 2; to_lat = pos 3; to_lng = pos 4 }

abbrev pub booking : CreateRequest
booking = record {
  delivery_id = 4;
  tracking_ids = 101 ∷ [];
  handoff_code_hash = 2;
  package_size = small;
  package_weight = 300;
  package_types = [];
  pickup_date_is_valid = true;
  scheduled_for = none;
  from_geo = some (record { lat = pos 1; lng = pos 2 });
  to_geo = some (record { lat = pos 3; lng = pos 4 });
  caller = record { from_lat = none; from_lng = none; to_lat = none; to_lng = none };
  serviceability = clear_to_fly;
  promo_code = none;
  use_credits = true;
  intent = ok (record { id = 10; status = succeeded });
}

-- A booking whose only tracking id is taken in `taken`.
abbrev pub taken : Db
taken = record sample { registry = record { tracking_id = 101; delivery_id = 1 } ∷ [] }

abbrev pub flags : Flags
flags = record { debit_first = true; outbox_referral = false; live_dispatch = true }
