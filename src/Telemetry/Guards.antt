-- ===== src/Telemetry/Guards.antt =====
-- What a frame must meet before the ingest of src/deliveries/telemetry/telemetry.service.ts acts on
-- it, and the record that it then leaves.
use drovery_backend.Base.{
  ℕ, Bool, true, false, not, Option, none, some, List, ◌∷◌, ◌≡◌, ◌⊎◌, inl, inr, refl, ◌&&◌, ◌||◌,
  ◌==?◌, is_some, Bool-cases, Option-cases, arith, ap, ◌∙◌,
}
use drovery_backend.Store.{
  Db, Delivery, Drone, FlightFrame, AppError, err, ok, is_live, Action, ⊤, Result, when, ◌>>◌,
  continue_with, telemetry_latlng_pair_required, telemetry_not_live, telemetry_drone_not_assigned,
}
use drovery_backend.Dispatch.{Distance, release}
use drovery_backend.Dispatch.Effects.{dispatch-Keeps}
use drovery_backend.Wallet.Frame.{refund_for_delivery-frame, refund_charge_to_wallet-frame}
use drovery_backend.Promo.Frame.{release_for_delivery-frame}
use drovery_backend.Deliveries.{find_delivery, update_delivery}
use drovery_backend.Commands.Driven.{IsDriven}
use drovery_backend.Telemetry.Phases.{TelemetryMessage}
use drovery_backend.Telemetry.Recorder.{
  frame_of, record_frame, append_frame, update_drone_state, maybe_recall, recall_if_needed,
  recall_drone, auto_return, reading_of,
}
use drovery_backend.Telemetry.Energy.{EnergyReading}
use drovery_backend.Telemetry.Ingest.{not_applied, context_of, ingest_phase, ingest_found, ingest}
use drovery_backend.Telemetry.Kept.{freshen-Keeps, ingest_phase-Keeps}

abbrev HasFrames : List FlightFrame → Db → Type 0
HasFrames fs db = db.flight_frames ≡ fs

HasFrames-IsDriven : (fs : List FlightFrame) → IsDriven (HasFrames fs)
unfolding release update_delivery
HasFrames-IsDriven fs = record {
  stable = record {
    settling = record {
      emits = λ e db h. h;
      releases = λ id o db h. h;
      promos = release_for_delivery-frame (λ r. r.flight_frames ≡ fs);
      spends = refund_for_delivery-frame (λ r. r.flight_frames ≡ fs);
      charges = refund_charge_to_wallet-frame (λ r. r.flight_frames ≡ fs);
    };
    updates = λ id guard change t db h. h;
  };
  observes = λ db ts rs h. h;
  orders = λ db cs keep h. h;
  reads = λ id change r db h. h;
  dispatches = dispatch-Keeps (HasFrames fs) (λ db ds h. h);
}

-- The aircraft that a live delivery is bound to, with both coordinates or none.
pub record MayDrive (msg : TelemetryMessage) (d : Delivery) (db : Db) : Type 0 where
  pub known : find_delivery msg.delivery_id db ≡ some d
  pub flown_live : is_live d.tracking_source ≡ true
  pub bound : d.assigned_drone_id ≡ some msg.drone_id
  pub paired : is_some msg.lat ≡ is_some msg.lng

abbrev Succeeds : Action ⊤ → Type 0
Succeeds m = (db : Db) → (m db).0 ≡ ok tt

when_ok : (b : Bool) (m : Action ⊤) → Succeeds m → Succeeds (when b m)
when_ok true m h db = h db
when_ok false m h db = refl

resumed :
    {A : Type 0} (n : Action A) (o : Result ⊤ × Db) → o.0 ≡ ok tt → continue_with (λ _. n) o ≡ n o.1
resumed n (ok a, x) e = refl
resumed n (err a, x) e = cc

then_ok : (m n : Action ⊤) → Succeeds m → Succeeds n → Succeeds (m >> n)
then_ok m n h k db = done (m db) (h db)
  where
    done : (o : Result ⊤ × Db) → o.0 ≡ ok tt → (continue_with (λ _. n) o).0 ≡ ok tt
    done (ok a, x) e = k x
    done (err a, x) e = cc

module _ (distance : Distance) (cid : ℕ) (msg : TelemetryMessage) (db : Db) where
  -- The frame of an aircraft that may drive the delivery is on record after the call.
  abbrev pub Recorded : Delivery → Type 0
  Recorded d =
      (ingest distance cid msg db).1.flight_frames
      ≡ frame_of (context_of d msg.drone_id) msg db.now ∷ db.flight_frames

  kept_frame :
      (d : Delivery)
      → (ingest_phase d.id msg d.status msg.phase
          (record_frame distance cid (context_of d msg.drone_id) msg db).1).1.flight_frames
        ≡ frame_of (context_of d msg.drone_id) msg db.now ∷ db.flight_frames
  unfolding record_frame append_frame
  kept_frame d =
      let fs = frame_of (context_of d msg.drone_id) msg db.now ∷ db.flight_frames in
      let v = HasFrames-IsDriven fs in
      ingest_phase-Keeps (HasFrames fs) v d.id msg d.status msg.phase _
        (freshen-Keeps (HasFrames fs) v distance cid (context_of d msg.drone_id) msg _ refl)

  record_frame_ok :
      (d : Delivery) → (record_frame distance cid (context_of d msg.drone_id) msg db).0 ≡ ok tt
  unfolding record_frame append_frame update_drone_state maybe_recall recall_if_needed recall_drone
      auto_return
  record_frame_ok d =
      then_ok (update_drone_state (context_of d msg.drone_id) msg)
        (maybe_recall distance cid (context_of d msg.drone_id) msg) (when_ok _ _ (λ x. refl))
        (λ x. recalled (reading_of msg) x) (append_frame (context_of d msg.drone_id) msg db).1
    where
      aircraft :
          (r : EnergyReading) (o : Option Drone) (x : Db)
          → (recall_drone distance cid (context_of d msg.drone_id) r o x).0 ≡ ok tt
      aircraft r none x = refl
      aircraft r (some drone) x = when_ok _ _ (λ y. refl) x

      recalled :
          (o : Option EnergyReading) (x : Db)
          → (recall_if_needed distance cid (context_of d msg.drone_id) msg o x).0 ≡ ok tt
      recalled none x = refl
      recalled (some r) x = when_ok _ _ (λ y. aircraft r _ y) x

  -- A frame is refused with an error and changes nothing, or names a delivery that is not known and
  -- changes nothing, or it comes from the aircraft that its live delivery is bound to and is on
  -- record after the call, however the rest of the call turns out.
  pub ingest-Guarded :
      ((e : AppError) × (ingest distance cid msg db ≡ (err e, db)))
      ⊎ ((find_delivery msg.delivery_id db ≡ none)
          × (ingest distance cid msg db ≡ (ok not_applied, db)))
      ⊎ ((d : Delivery) × MayDrive msg d db × Recorded d)
  unfolding ingest ingest_found
  ingest-Guarded =
      elim (Bool-cases
        (is_some msg.lat && not (is_some msg.lng) || not (is_some msg.lat) && is_some msg.lng)) [
          | inl p ↦ inl (telemetry_latlng_pair_required, rw p refl)
          | inr p ↦ elim (Option-cases (find_delivery msg.delivery_id db)) [
            | inl n ↦ inr (inl (n, rw (p, n) refl))
            | inr (d, n) ↦ elim (Bool-cases (is_live d.tracking_source)) [
              | inr l ↦ inl (telemetry_not_live, rw (p, n, l) refl)
              | inl l ↦ elim (Bool-cases (d.assigned_drone_id ==? msg.drone_id)) [
                | inr b ↦ inl (telemetry_drone_not_assigned, rw (p, n, l, b) refl)
                | inl b ↦ inr (
                    inr (
                      d,
                      record {
                        known = n;
                        flown_live = l;
                        bound = is_bound d.assigned_drone_id msg.drone_id b;
                        paired = ground arith;
                      },
                      rw (p, n, l, b)
                          (ap (λ o. o.1.flight_frames)
                              (resumed (ingest_phase d.id msg d.status msg.phase)
                                (record_frame distance cid (context_of d msg.drone_id) msg db)
                                (record_frame_ok d))
                            ∙ kept_frame d),
                    ))
              ]
            ]
          ]
        ]
    where
      is_bound : (o : Option ℕ) (k : ℕ) → o ==? k ≡ true → o ≡ some k
      is_bound none k h = cc
      is_bound (some a) k h = ground arith
