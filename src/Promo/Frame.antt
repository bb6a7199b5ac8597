-- ===== src/Promo/Frame.antt =====
-- The tables that the release of src/promo/promo.service.ts leaves alone.
use mathlib.Core.Path.{subst}
use drovery_backend.Base.{sym, ℕ, List, Option, none, some, ◌≡◌, refl, leb, arith}
use drovery_backend.Base.Table.{find_first}
use drovery_backend.Store.{
  Db, Delivery, Drone, User, WalletTransaction, Payment, PromoRedemption, DroneCommand,
  TrackingIdEntry, FlightFrame, RecurringDelivery, PromoCode, Result, ok, err, when,
}
use drovery_backend.Store.Invariants.{
  AfterOk, AfterOk-intro, Keeps, KeepsOk, transaction-Keeps, >>=-KeepsOk, when-KeepsOk,
}
use drovery_backend.Promo.Defs.{
  DiscountResult, redeem_within_tx, increment_counter, create_redemption, is_held_by,
  flip_redemption, decrement_counter, flip_and_decrement, release_found, release_for_delivery,
}

-- The tables of the other components.
pub record Rest : Type 0 where
  pub deliveries : List Delivery
  pub drones : List Drone
  pub users : List User
  pub wallet_transactions : List WalletTransaction
  pub payments : List Payment
  pub commands : List DroneCommand
  pub registry : List TrackingIdEntry
  pub flight_frames : List FlightFrame
  pub recurring_deliveries : List RecurringDelivery
  pub now : ℕ

abbrev pub rest_of : Db → Rest
rest_of db = record {
  deliveries = db.deliveries;
  drones = db.drones;
  users = db.users;
  wallet_transactions = db.wallet_transactions;
  payments = db.payments;
  commands = db.commands;
  registry = db.registry;
  flight_frames = db.flight_frames;
  recurring_deliveries = db.recurring_deliveries;
  now = db.now;
}

abbrev pub HasRest : Rest → Db → Type 0
HasRest r db = rest_of db ≡ r

module _ (r : Rest) where
  flip_and_decrement-rest : (did code_id : ℕ) → KeepsOk (HasRest r) (flip_and_decrement did code_id)
  unfolding flip_and_decrement flip_redemption decrement_counter
  flip_and_decrement-rest did code_id =
      >>=-KeepsOk (HasRest r) (flip_redemption did)
        (λ n. when (leb 1 n) (decrement_counter code_id)) (λ db h. h)
        (λ n. when-KeepsOk (HasRest r) (leb 1 n) (decrement_counter code_id) (λ db h. h))

  release_found-rest :
      (did : ℕ) (o : Option PromoRedemption) → Keeps (HasRest r) (release_found did o)
  unfolding release_found
  release_found-rest did none db h = h
  release_found-rest did (some q) db h =
      transaction-Keeps (HasRest r) (flip_and_decrement did q.promo_code_id)
        (flip_and_decrement-rest did q.promo_code_id) db h

  release_for_delivery-rest : (did : ℕ) → Keeps (HasRest r) (release_for_delivery did)
  unfolding release_for_delivery
  release_for_delivery-rest did db h =
      release_found-rest did (find_first (is_held_by did) db.redemptions) db h

-- What holds of the other tables holds of them after a release.
pub release_for_delivery-frame :
    (Q : Rest → Type 0) (did : ℕ) → Keeps (λ db. Q (rest_of db)) (release_for_delivery did)
release_for_delivery-frame Q did db h =
    subst Q (sym (release_for_delivery-rest (rest_of db) did db refl)) h

module _ (r : Rest) (code : PromoCode) (uid did total : ℕ) (d : DiscountResult) where
  redeem-rest : KeepsOk (HasRest r) (redeem_within_tx code uid did total d)
  unfolding redeem_within_tx increment_counter create_redemption
  redeem-rest db h =
      AfterOk-intro (HasRest r) (redeem_within_tx code uid did total d db)
        (λ a e. ground (arith, h, e))

AfterOk-subst :
    {A : Type 0} (Q : Rest → Type 0) (r : Rest) (o : Result A × Db)
    → Q r
    → AfterOk (HasRest r) o
    → AfterOk (λ db. Q (rest_of db)) o
AfterOk-subst Q r (ok a, db) q h = subst Q (sym h) q
AfterOk-subst Q r (err e, db) q h = tt

-- What holds of the other tables holds of them after a redemption.
pub redeem-frame :
    (Q : Rest → Type 0) (code : PromoCode) (uid did total : ℕ) (d : DiscountResult)
    → KeepsOk (λ db. Q (rest_of db)) (redeem_within_tx code uid did total d)
redeem-frame Q code uid did total d db h =
    AfterOk-subst Q (rest_of db) (redeem_within_tx code uid did total d db) h
      (redeem-rest (rest_of db) code uid did total d db refl)
