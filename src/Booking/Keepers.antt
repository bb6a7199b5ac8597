-- ===== src/Booking/Keepers.antt =====
-- The ledgers, the fleet, the promo counters and the deliveries under `create` of
-- src/deliveries/deliveries.service.ts.
use drovery_backend.Base.{
  ℕ, Option, none, some, List, [], ◌∷◌, ◌≡◌, sym, ◌≢◌, All, ◌==◌, arith, leb, Bool-cases, inl, inr,
}
use drovery_backend.Base.Table.{at, count, find, find_first-count_zero, IsKeyed}
use drovery_backend.Store.{
  Db, Delivery, delivery_key, PromoCode, PromoRedemption, code_key, ok, err, Result, ⊤,
}
use drovery_backend.Store.Invariants.{AfterOk, Keeps, KeepsOk}
use drovery_backend.Wallet.Reconcile.{IsReconciled, debit-IsReconciled, reward-IsReconciled}
use drovery_backend.Wallet.Frame.{reward-frame, debit-frame}
use drovery_backend.Promo.{
  is_open, is_redemption_of, DiscountResult, redeem_within_tx, create_redemption, increment_counter,
}
use drovery_backend.Promo.Cap.{IsCounted, redeem-IsCounted}
use drovery_backend.Promo.Release.{redemption_key}
use drovery_backend.Promo.Frame.{redeem-frame}
use drovery_backend.Dispatch.{Distance}
use drovery_backend.Dispatch.Claims.{Allocated, IsAllocated, dispatch-Allocated}
use drovery_backend.Dispatch.Effects.{dispatch-Keeps}
use drovery_backend.Deliveries.Lifecycle.{Advanced, Later, HasAdvanced, HasAdvanced-IsStable}
use drovery_backend.Deliveries.Ledgers.{
  Allocated-IsStable, IsReconciled-IsStable, IsTallied, Tallied, IsTallied-IsStable, Balanced,
}
use drovery_backend.Deliveries.Attempts.{HandoffsSound, HandoffsSound-IsStable}
use drovery_backend.Deliveries.Stable.{IsSoundHandoff}
use drovery_backend.Booking.Sizing.{CreateRequest}
use drovery_backend.Booking.Create.{Flags, insert_delivery, create}
use drovery_backend.Booking.Books.{IsBookable, create-Keeps}

-- An insert changes the deliveries, and nothing else.
pub insert-KeepsOk :
    (P : Db → Type 0)
    → ((db : Db) (ds : List Delivery) → P db → P (record db { deliveries = ds }))
    → (row : Delivery) → IsSoundHandoff row
    → KeepsOk P (insert_delivery row)
unfolding insert_delivery
insert-KeepsOk P keep row z db h =
    elim (Bool-cases (leb 1 (count (λ (x : Delivery). x.id == row.id) db.deliveries))) [
      | inl e ↦ rw e tt
      | inr e ↦ rw e (keep db _ h)
    ]

pub Allocated-IsBookable : IsBookable Allocated
Allocated-IsBookable = record {
  stable = Allocated-IsStable;
  outbox = λ db es h. h;
  registers = λ db es h. h;
  pays = λ db ps h. h;
  inserts = insert-KeepsOk Allocated (λ db ds h. h);
  redeems = redeem-frame (λ r. IsAllocated r.drones);
  debits = debit-frame (λ r. IsAllocated r.drones);
  rewards = reward-frame (λ r. IsAllocated r.drones);
}

-- A booking leaves each aircraft with one delivery, and each delivery with one aircraft at most.
pub create-Allocated :
    (distance : Distance) (flags : Flags) (uid : ℕ) (r : CreateRequest)
    → Keeps Allocated (create distance flags uid r)
create-Allocated distance =
    create-Keeps distance Allocated Allocated-IsBookable (dispatch-Allocated distance)

redeem-IsReconciled :
    (code : PromoCode) (uid did total : ℕ) (d : DiscountResult)
    → KeepsOk IsReconciled (redeem_within_tx code uid did total d)
redeem-IsReconciled code uid did total d db h = unpack (redeem_within_tx code uid did total d db) (
    redeem-frame (λ r. Balanced r.users r.wallet_transactions) code uid did total d db
      (h.keyed, h.accounted))
  where
    unpack :
        (o : Result ⊤ × Db)
        → AfterOk (λ x. Balanced x.users x.wallet_transactions) o
        → AfterOk IsReconciled o
    unpack (ok a, x) b = record { keyed = b.0; accounted = b.1 }
    unpack (err e, x) b = tt

pub IsReconciled-IsBookable : IsBookable IsReconciled
IsReconciled-IsBookable = record {
  stable = IsReconciled-IsStable;
  outbox = λ db es h. record { keyed = h.keyed; accounted = h.accounted };
  registers = λ db es h. record { keyed = h.keyed; accounted = h.accounted };
  pays = λ db ps h. record { keyed = h.keyed; accounted = h.accounted };
  inserts =
      insert-KeepsOk IsReconciled (λ db ds h. record { keyed = h.keyed; accounted = h.accounted });
  redeems = redeem-IsReconciled;
  debits = λ uid amount did key. debit-IsReconciled uid amount did key;
  rewards = reward-IsReconciled;
}

-- A booking keeps every balance equal to what the ledger credited less what it debited.
pub create-IsReconciled :
    (distance : Distance) (flags : Flags) (uid : ℕ) (r : CreateRequest)
    → Keeps IsReconciled (create distance flags uid r)
create-IsReconciled distance = create-Keeps distance IsReconciled IsReconciled-IsBookable (
    dispatch-Keeps IsReconciled (λ db ds h. record { keyed = h.keyed; accounted = h.accounted })
      distance)

Later-none : (o p : Option Delivery) → Later o none → Later o p
Later-none none p h = tt
Later-none (some d) p h = absurd h

insert_advances :
    (before ds : List Delivery) (row : Delivery) (j : ℕ)
    → count (λ (x : Delivery). x.id == row.id) ds ≡ 0
    → Later (find delivery_key j before) (find delivery_key j ds)
    → Later (find delivery_key j before) (find delivery_key j (row ∷ ds))
insert_advances before ds row j fresh h = elim (Bool-cases (row.id == j)) [
  | inl e ↦
      let same : row.id ≡ j = ground arith in
      let absent : find delivery_key j ds ≡ none =
        find_first-count_zero (λ (x : Delivery). x.id == j) ds (rw (sym same) fresh) in
      rw e (Later-none (find delivery_key j before) (some row) (rw (sym absent) h))
  | inr e ↦ rw e h
]

insert-HasAdvanced :
    (before : List Delivery) (row : Delivery)
    → IsSoundHandoff row
    → KeepsOk (HasAdvanced before) (insert_delivery row)
unfolding insert_delivery
insert-HasAdvanced before row z db h =
    elim (Bool-cases (leb 1 (count (λ (x : Delivery). x.id == row.id) db.deliveries))) [
      | inl e ↦ rw e tt
      | inr e ↦ rw e (λ j. insert_advances before db.deliveries row j (ground arith) (h j))
    ]

pub HasAdvanced-IsBookable : (before : List Delivery) → IsBookable (HasAdvanced before)
HasAdvanced-IsBookable before = record {
  stable = HasAdvanced-IsStable before;
  outbox = λ db es h. h;
  registers = λ db es h. h;
  pays = λ db ps h. h;
  inserts = insert-HasAdvanced before;
  redeems = redeem-frame (λ r. Advanced before r.deliveries);
  debits = debit-frame (λ r. Advanced before r.deliveries);
  rewards = reward-frame (λ r. Advanced before r.deliveries);
}

-- A booking leaves every other delivery its status.
pub create-HasAdvanced :
    (distance : Distance) (before : List Delivery) (flags : Flags) (uid : ℕ) (r : CreateRequest)
    → Keeps (HasAdvanced before) (create distance flags uid r)
create-HasAdvanced distance before =
    create-Keeps distance (HasAdvanced before) (HasAdvanced-IsBookable before)
      (dispatch-Keeps (HasAdvanced before) (λ db ds h. h) distance)

All_unused :
    (did : ℕ) (xs : List PromoRedemption)
    → count (λ (q : PromoRedemption). q.delivery_id == did) xs ≡ 0
    → All (λ q. redemption_key q ≢ did) xs
All_unused did [] h = tt
All_unused did (x ∷ xs) h = (λ e. ground arith, All_unused did xs (ground arith))

abbrev OneEach : Db → Type 0
OneEach db = IsKeyed redemption_key db.redemptions

create-OneEach : (q : PromoRedemption) → KeepsOk OneEach (create_redemption q)
unfolding create_redemption
create-OneEach q db h =
    elim (Bool-cases
      (leb 1 (count (λ (x : PromoRedemption). x.delivery_id == q.delivery_id) db.redemptions))) [
        | inl e ↦ rw e tt
        | inr e ↦
            elim (Bool-cases
              (leb 1 (count (is_redemption_of q.promo_code_id q.user_id) db.redemptions))) [
                | inl t ↦ rw (e, t) tt
                | inr t ↦ rw (e, t) (All_unused q.delivery_id db.redemptions (ground arith), h)
              ]
      ]

redeem-OneEach :
    (code : PromoCode) (uid did total : ℕ) (d : DiscountResult)
    → KeepsOk OneEach (redeem_within_tx code uid did total d)
unfolding redeem_within_tx increment_counter
redeem-OneEach code uid did total d db h =
    elim (Bool-cases (count (at code_key code.id (is_open db.now)) db.promo_codes == 0)) [
      | inl e ↦ rw e tt
      | inr e ↦ rw e (create-OneEach _ _ h)
    ]

tally : (o : Result ⊤ × Db) → AfterOk IsCounted o → AfterOk OneEach o → AfterOk IsTallied o
tally (ok a, db) c u = record {
  keyed = c.keyed;
  counted = c.counted;
  per_user = c.per_user;
  one_each = u;
}
tally (err e, db) c u = tt

redeem-IsTallied :
    (code : PromoCode) (uid did total : ℕ) (d : DiscountResult)
    → KeepsOk IsTallied (redeem_within_tx code uid did total d)
redeem-IsTallied code uid did total d db h =
    tally (redeem_within_tx code uid did total d db)
      (redeem-IsCounted code uid did total d db
        (record { keyed = h.keyed; counted = h.counted; per_user = h.per_user }))
      (redeem-OneEach code uid did total d db h.one_each)

pub IsTallied-IsBookable : IsBookable IsTallied
IsTallied-IsBookable = record {
  stable = IsTallied-IsStable;
  outbox = λ db es h. h;
  registers = λ db es h. h;
  pays = λ db ps h. h;
  inserts = insert-KeepsOk IsTallied (λ db ds h. h);
  redeems = redeem-IsTallied;
  debits = debit-frame (λ r. Tallied r.promo_codes r.redemptions);
  rewards = reward-frame (λ r. Tallied r.promo_codes r.redemptions);
}

-- A booking keeps the promo counters exact, each user to one active redemption of a code, and each
-- delivery to one redemption.
pub create-IsTallied :
    (distance : Distance) (flags : Flags) (uid : ℕ) (r : CreateRequest)
    → Keeps IsTallied (create distance flags uid r)
create-IsTallied distance =
    create-Keeps distance IsTallied IsTallied-IsBookable
      (dispatch-Keeps IsTallied (λ db ds h. h) distance)

insert-HandoffsSound :
    (row : Delivery) → IsSoundHandoff row → KeepsOk HandoffsSound (insert_delivery row)
unfolding insert_delivery
insert-HandoffsSound row z db h =
    elim (Bool-cases (leb 1 (count (λ (x : Delivery). x.id == row.id) db.deliveries))) [
      | inl e ↦ rw e tt
      | inr e ↦ rw e (z, h)
    ]

pub HandoffsSound-IsBookable : IsBookable HandoffsSound
HandoffsSound-IsBookable = record {
  stable = HandoffsSound-IsStable;
  outbox = λ db es h. h;
  registers = λ db es h. h;
  pays = λ db ps h. h;
  inserts = insert-HandoffsSound;
  redeems = redeem-frame (λ r. All IsSoundHandoff r.deliveries);
  debits = debit-frame (λ r. All IsSoundHandoff r.deliveries);
  rewards = reward-frame (λ r. All IsSoundHandoff r.deliveries);
}
