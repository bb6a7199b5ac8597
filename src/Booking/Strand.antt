-- ===== src/Booking/Strand.antt =====
-- A `create` of src/deliveries/deliveries.service.ts that throws leaves no aircraft claimed.
use drovery_backend.Base.{
  Bool-cases, inl, inr, ℕ, not, Option, none, some, List, [], ◌∷◌, ◌≡◌, refl, take, arith, ltb,
}
use drovery_backend.Base.Table.{count}
use drovery_backend.Store.{
  Db, Delivery, Action, ⊤, Result, ok, err, pure, throw, when, continue_with, AppError, is_live,
  ◌>>=◌, ◌>>◌, tracking_id_alloc_failed,
}
use drovery_backend.Store.Invariants.{Keeps}
use drovery_backend.Wallet.Frame.{
  refund_for_delivery-frame, refund_charge_to_wallet-frame, reward-frame, debit-frame,
}
use drovery_backend.Promo.Frame.{release_for_delivery-frame, redeem-frame}
use drovery_backend.Dispatch.{Distance, DispatchDecision, dispatch, holds, release, return_to_fleet}
use drovery_backend.Dispatch.Claims.{release_lem}
use drovery_backend.Dispatch.Effects.{dispatch-Decided, Decided}
use drovery_backend.Deliveries.{update_delivery, compensate_reservations, release_claimed_aircraft}
use drovery_backend.Deliveries.Stable.{IsStable}
use drovery_backend.Booking.Sizing.{CreateRequest, Quote, quote}
use drovery_backend.Booking.Split.{quote-Keeps}
use drovery_backend.Booking.Create.{
  Flags, Draft, rethrow_after, on_error, give_back, reserve_first, write_delivery,
  is_tracking_id_collision, after_try, write_tries, after_write, book, dispatch_request, create,
  max_tracking_id_tries,
}
use drovery_backend.Booking.Books.{IsBookable, book-Keeps}
use drovery_backend.Booking.Keepers.{insert-KeepsOk}

-- No aircraft is claimed for the delivery.
abbrev pub HasNoAircraft : ℕ → Db → Type 0
HasNoAircraft did db = count (holds did) db.drones ≡ 0

-- `P` holds of the database that a call which threw has left.
abbrev pub AfterErr : {A : Type 0} → (Db → Type 0) → Result A × Db → Type 0
AfterErr P (ok a, db) = Unit
AfterErr P (err e, db) = P db

release-HasNoAircraft : (did id : ℕ) (o : _) → Keeps (HasNoAircraft did) (release id o)
release-HasNoAircraft did id o db h = ground (arith, release_lem id did o db)

HasNoAircraft-IsStable : (did : ℕ) → IsStable (HasNoAircraft did)
unfolding update_delivery
HasNoAircraft-IsStable did = record {
  settling = record {
    emits = λ e db h. h;
    releases = release-HasNoAircraft did;
    promos = release_for_delivery-frame (λ r. count (holds did) r.drones ≡ 0);
    spends = refund_for_delivery-frame (λ r. count (holds did) r.drones ≡ 0);
    charges = refund_charge_to_wallet-frame (λ r. count (holds did) r.drones ≡ 0);
  };
  updates = λ id guard change t db h. h;
}

HasNoAircraft-IsBookable : (did : ℕ) → IsBookable (HasNoAircraft did)
HasNoAircraft-IsBookable did = record {
  stable = HasNoAircraft-IsStable did;
  outbox = λ db es h. h;
  registers = λ db es h. h;
  pays = λ db ps h. h;
  inserts = insert-KeepsOk (HasNoAircraft did) (λ db ds h. h);
  redeems = redeem-frame (λ r. count (holds did) r.drones ≡ 0);
  debits = debit-frame (λ r. count (holds did) r.drones ≡ 0);
  rewards = reward-frame (λ r. count (holds did) r.drones ≡ 0);
}

keeps_AfterErr : {A : Type 0} (P : Db → Type 0) (o : Result A × Db) → P o.1 → AfterErr P o
keeps_AfterErr P (ok a, db) h = tt
keeps_AfterErr P (err e, db) h = h

module _ (P : Db → Type 0) where
  err_bind :
      {A B : Type 0} (o : Result A × Db) (k : A → Action B)
      → AfterErr P o
      → ((a : A) (db : Db) → AfterErr P (k a db))
      → AfterErr P (continue_with k o)
  err_bind (ok a, db) k h hk = hk a db
  err_bind (err e, db) k h hk = h

module _ (flags : Flags) (d : Draft) (drone : ℕ) (e : d.decision.drone_id ≡ some drone) where
  -- A booking that holds an aircraft frees it when it gives back.
  give_back_frees : (db : Db) → HasNoAircraft d.request.delivery_id (give_back flags d db).1
  unfolding give_back release_claimed_aircraft compensate_reservations
  give_back_frees db = elim (Bool-cases flags.debit_first) [
    | inl t ↦
        let db' = (compensate_reservations d.request.delivery_id db).1 in
        rw (e, t)
          (ground
            (arith, release_lem d.request.delivery_id d.request.delivery_id return_to_fleet db'))
    | inr t ↦
        rw (e, t)
          (ground
            (arith, release_lem d.request.delivery_id d.request.delivery_id return_to_fleet db))
  ]

  gives_back :
      (x : AppError) (db : Db)
      → AfterErr
          (HasNoAircraft d.request.delivery_id)
          ((give_back flags d >> throw {A = Delivery} x) db)
  gives_back x db =
      keeps_AfterErr (HasNoAircraft d.request.delivery_id)
        ((give_back flags d >> throw {A = Delivery} x) db)
        (thrown (give_back flags d db) (give_back_frees db))
    where
      thrown :
          (o : Result ⊤ × Db)
          → HasNoAircraft d.request.delivery_id o.1
          → HasNoAircraft d.request.delivery_id (continue_with (λ _. throw {A = Delivery} x) o).1
      thrown (ok a, db') h = h
      thrown (err y, db') h = h

  tries_free :
      (ts : List ℕ) (db : Db)
      → AfterErr (HasNoAircraft d.request.delivery_id) (write_tries flags d ts db)
  unfolding write_tries
  tries_free [] db = gives_back tracking_id_alloc_failed db
  tries_free (t ∷ ts) db = tried (write_delivery flags d t db) (tries_free ts)
    where
      tried :
          (o : Result Delivery × Db)
          → ((db' : Db)
              → AfterErr (HasNoAircraft d.request.delivery_id) (write_tries flags d ts db'))
          → AfterErr
              (HasNoAircraft d.request.delivery_id)
              (after_try (give_back flags d) (write_tries flags d ts) o)
      tried (ok row, db') again = tt
      tried (err x, db') again = elim (Bool-cases (is_tracking_id_collision x)) [
        | inl c ↦ rw c (again db')
        | inr c ↦ rw c (gives_back x db')
      ]

  after_write_returns :
      (row : Delivery) (db : Db)
      → AfterErr (HasNoAircraft d.request.delivery_id) ((after_write d >> pure row) db)
  unfolding after_write
  after_write_returns row db = elim (Bool-cases (ltb 0 d.quote.charge.final_total)) [
    | inl p ↦ elim (Bool-cases (not (is_live d.decision.tracking_source))) [
      | inl q ↦ rw (p, q) tt
      | inr q ↦ rw (p, q) tt
    ]
    | inr p ↦ elim (Bool-cases (not (is_live d.decision.tracking_source))) [
      | inl q ↦ rw (p, q) tt
      | inr q ↦ rw (p, q) tt
    ]
  ]

  reserve_frees :
      (db : Db) (o : Result ⊤ × Db)
      → AfterErr (HasNoAircraft d.request.delivery_id) (rethrow_after (give_back flags d) o)
  reserve_frees db (ok a, db') = tt
  reserve_frees db (err x, db') = give_back_frees db'

  booked_frees : (db : Db) → AfterErr (HasNoAircraft d.request.delivery_id) (book flags d db)
  unfolding book
  booked_frees db =
      let P = HasNoAircraft d.request.delivery_id in
      let reserve = on_error (when flags.debit_first (reserve_first d)) (give_back flags d) in
      let tries = write_tries flags d (take max_tracking_id_tries d.request.tracking_ids) in
      err_bind P ((reserve >> tries) db) (λ row. after_write d >> pure row)
        (err_bind P (reserve db) (λ _. tries)
          (reserve_frees db (when flags.debit_first (reserve_first d) db))
          (λ _ db'. tries_free (take max_tracking_id_tries d.request.tracking_ids) db'))
        after_write_returns

-- A booking that fails, with or without an aircraft, leaves none claimed.
book_frees :
    (flags : Flags) (d : Draft) (o : Option ℕ) (db : Db)
    → d.decision.drone_id ≡ o
    → (o ≡ none → HasNoAircraft d.request.delivery_id db)
    → AfterErr (HasNoAircraft d.request.delivery_id) (book flags d db)
book_frees flags d none db e h =
    keeps_AfterErr (HasNoAircraft d.request.delivery_id) (book flags d db) (
      book-Keeps (HasNoAircraft d.request.delivery_id)
        (HasNoAircraft-IsBookable d.request.delivery_id) flags d db (h refl))
book_frees flags d (some drone) db e h = booked_frees flags d drone e db

module _ (distance : Distance) (flags : Flags) (uid : ℕ) (r : CreateRequest) where
  Decided-frees :
      (q : Quote) (db : Db) (o : Result DispatchDecision × Db)
      → HasNoAircraft r.delivery_id db
      → Decided db o
      → AfterErr (HasNoAircraft r.delivery_id) (
          continue_with
            (λ decision.
              book flags (record { user_id = uid; request = r; quote = q; decision = decision }))
            o)
  Decided-frees q db (err e, db') h k = rw k h
  Decided-frees q db (ok decision, db') h k =
      book_frees flags (record { user_id = uid; request = r; quote = q; decision = decision })
        decision.drone_id db' refl (λ e. rw (k e) h)

  quoted_frees :
      (db : Db) (o : Result Quote × Db)
      → HasNoAircraft r.delivery_id o.1
      → AfterErr (HasNoAircraft r.delivery_id) (
          continue_with
            (λ q. dispatch distance flags.live_dispatch (dispatch_request r q) >>= λ decision.
              book flags (record { user_id = uid; request = r; quote = q; decision = decision }))
            o)
  quoted_frees db (err e, db') h = h
  quoted_frees db (ok q, db') h =
      Decided-frees q db' (dispatch distance flags.live_dispatch (dispatch_request r q) db') h
        (dispatch-Decided distance flags.live_dispatch (dispatch_request r q) db')

  created_frees :
      (db : Db)
      → HasNoAircraft r.delivery_id db
      → AfterErr (HasNoAircraft r.delivery_id) (create distance flags uid r db)
  unfolding create
  created_frees db h =
      quoted_frees db (quote distance uid r db)
        (quote-Keeps distance (HasNoAircraft r.delivery_id) uid r db h)

  -- A `create` that throws, at whatever point and for whatever reason, leaves no aircraft claimed
  -- for its delivery.
  pub create_strands_nothing :
      (db : Db) (e : AppError)
      → HasNoAircraft r.delivery_id db
      → (create distance flags uid r db).0 ≡ err e
      → HasNoAircraft r.delivery_id (create distance flags uid r db).1
  create_strands_nothing db e h k = failed (create distance flags uid r db) (created_frees db h) k
    where
      failed :
          (o : Result Delivery × Db)
          → AfterErr (HasNoAircraft r.delivery_id) o
          → o.0 ≡ err e
          → HasNoAircraft r.delivery_id o.1
      failed (ok a, db') a' k' = cc
      failed (err x, db') a' k' = a'
