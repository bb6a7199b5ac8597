-- ===== src/Recurring/Claims.antt =====
-- What the statements of src/recurring-deliveries/recurring.materializer.ts leave of a claimed
-- occurrence.
use drovery_backend.Base.{ℕ, Bool, true, false, Option, some, List, [], ◌∷◌, ◌≡◌, refl, arith}
use drovery_backend.Base.Table.{at, count, update_many, count-update_many_falsified}
use drovery_backend.Store.{Db, Delivery, RecurringDelivery}
use drovery_backend.Store.Invariants.{Keeps, >>=-Keeps}
use drovery_backend.Wallet.Frame.{
  refund_for_delivery-frame, refund_charge_to_wallet-frame, debit-frame, reward-frame,
}
use drovery_backend.Promo.Frame.{release_for_delivery-frame, redeem-frame}
use drovery_backend.Dispatch.{Distance, release}
use drovery_backend.Dispatch.Effects.{dispatch-Keeps}
use drovery_backend.Deliveries.{update_delivery}
use drovery_backend.Booking.{Flags, CreateRequest, create}
use drovery_backend.Booking.Books.{IsBookable, create-Keeps}
use drovery_backend.Booking.Keepers.{insert-KeepsOk}
use drovery_backend.Recurring.Rule.{Zone}
use drovery_backend.Recurring.Materializer.{
  schedule_key, is_instant, is_at_cursor, claim_cursor, note_instance, create_instance,
}

-- No active row of the schedule stands at the cursor.
abbrev pub IsClaimed : ℕ → ℕ → List RecurringDelivery → Type 0
IsClaimed id cursor rs = count (at schedule_key id (is_at_cursor cursor)) rs ≡ 0

-- A write that leaves a row elsewhere than at the cursor.
moved-IsClaimed :
    (id cursor : ℕ) (p : RecurringDelivery → Bool) (f : RecurringDelivery → RecurringDelivery)
    (rs : List RecurringDelivery)
    → ((s : RecurringDelivery)
        → at schedule_key id (is_at_cursor cursor) s ≡ false
        → at schedule_key id (is_at_cursor cursor) (f s) ≡ false)
    → IsClaimed id cursor rs
    → IsClaimed id cursor (update_many p f rs)
moved-IsClaimed id cursor p f [] keep h = refl
moved-IsClaimed id cursor p f (s ∷ rs) keep h =
    ground (arith, keep s, moved-IsClaimed id cursor p f rs keep)

abbrev HasSchedules : List RecurringDelivery → Db → Type 0
HasSchedules rs db = db.recurring_deliveries ≡ rs

-- A booking leaves the schedules.
schedules-IsBookable : (rs : List RecurringDelivery) → IsBookable (HasSchedules rs)
unfolding release update_delivery
schedules-IsBookable rs = record {
  stable = record {
    settling = record {
      emits = λ e db h. h;
      releases = λ id o db h. h;
      promos = release_for_delivery-frame (λ r. r.recurring_deliveries ≡ rs);
      spends = refund_for_delivery-frame (λ r. r.recurring_deliveries ≡ rs);
      charges = refund_charge_to_wallet-frame (λ r. r.recurring_deliveries ≡ rs);
    };
    updates = λ id guard change t db h. h;
  };
  outbox = λ db es h. h;
  registers = λ db es h. h;
  pays = λ db ps h. h;
  inserts = insert-KeepsOk (HasSchedules rs) (λ db ds h. h);
  redeems = redeem-frame (λ r. r.recurring_deliveries ≡ rs);
  debits = debit-frame (λ r. r.recurring_deliveries ≡ rs);
  rewards = reward-frame (λ r. r.recurring_deliveries ≡ rs);
}

module _ (id cursor : ℕ) where
  abbrev pub Claimed : Db → Type 0
  Claimed db = IsClaimed id cursor db.recurring_deliveries

  -- The claim itself, and a claim of any schedule that goes elsewhere.
  pub claim-Claims :
      (a : Option ℕ) (db : Db)
      → is_instant a cursor ≡ false
      → Claimed (claim_cursor id cursor a db).1
  unfolding claim_cursor
  claim-Claims a db h =
      count-update_many_falsified (at schedule_key id (is_at_cursor cursor))
        (λ s. record s { next_run_at = a }) db.recurring_deliveries (λ s e. ground (arith, h))

  pub claim-Keeps :
      (j c : ℕ) (a : Option ℕ) → is_instant a cursor ≡ false → Keeps Claimed (claim_cursor j c a)
  unfolding claim_cursor
  claim-Keeps j c a h db k =
      moved-IsClaimed id cursor (at schedule_key j (is_at_cursor c))
        (λ s. record s { next_run_at = a }) db.recurring_deliveries (λ s e. ground (arith, h)) k

  note-Keeps : (j now : ℕ) (d : Delivery) → Keeps Claimed (note_instance j now d)
  unfolding note_instance
  note-Keeps j now d db k =
      moved-IsClaimed id cursor (at schedule_key j (λ s. true))
        (λ s. record s { last_materialized_at = some now; last_delivery_id = some d.id })
        db.recurring_deliveries (λ s e. e) k

  module _ (distance : Distance) (flags : Flags) (z : Zone)
      (order : RecurringDelivery → ℕ → CreateRequest) where
    create-Claimed : (uid : ℕ) (r : CreateRequest) → Keeps Claimed (create distance flags uid r)
    create-Claimed uid r db k =
        rw
          (create-Keeps distance (HasSchedules db.recurring_deliveries)
            (schedules-IsBookable db.recurring_deliveries)
            (dispatch-Keeps (HasSchedules db.recurring_deliveries) (λ x ds h. h) distance) flags uid
            r db refl)
          k

    pub instance-Keeps :
        (s : RecurringDelivery) (t now : ℕ)
        → Keeps Claimed (create_instance distance flags z order s t now)
    unfolding create_instance
    instance-Keeps s t now =
        >>=-Keeps Claimed (create distance flags s.user_id (order s t)) (note_instance s.id now)
          (create-Claimed s.user_id (order s t)) (note-Keeps s.id now)
