-- ===== src/Deliveries/Ledgers.antt =====
-- The invariants of the wallet, the fleet and the promo codes under the statements of a delivery's
-- life (src/deliveries/deliveries.service.ts).
use drovery_backend.Base.{ℕ, Option, none, some, List, ◌≡◌, refl, leb, sum_by, ◌+◌, ◌≤◌}
use drovery_backend.Base.Table.{IsKeyed, IsKeyed-update_many, find_first, find, count}
use drovery_backend.Store.{
  Db, PromoRedemption, PromoCode, User, WalletTransaction, user_key, code_key, when,
}
use drovery_backend.Store.Invariants.{Keeps, KeepsOk, transaction-Keeps, >>=-KeepsOk, when-KeepsOk}
use drovery_backend.Wallet.Reconcile.{
  IsReconciled, credited, debited, refund_for_delivery-IsReconciled,
  refund_charge_to_wallet-IsReconciled,
}
use drovery_backend.Wallet.Frame.{refund_for_delivery-frame, refund_charge_to_wallet-frame}
use drovery_backend.Wallet.{balance_or_zero}
use drovery_backend.Promo.{
  is_redemption_of, is_held_by, flip_redemption, decrement_counter, flip_and_decrement,
  release_found, release_for_delivery,
}
use drovery_backend.Promo.Cap.{times_of, is_active_for}
use drovery_backend.Promo.Release.{redemption_key, release-IsCounted}
use drovery_backend.Promo.Frame.{release_for_delivery-frame}
use drovery_backend.Dispatch.{release}
use drovery_backend.Dispatch.Claims.{Allocated, IsAllocated, release-Allocated}
use drovery_backend.Deliveries.Transition.{update_delivery}
use drovery_backend.Deliveries.Stable.{IsStable}

pub Allocated-IsStable : IsStable Allocated
unfolding update_delivery
Allocated-IsStable = record {
  settling = record {
    emits = λ e db h. h;
    releases = release-Allocated;
    promos = release_for_delivery-frame (λ r. IsAllocated r.drones);
    spends = refund_for_delivery-frame (λ r. IsAllocated r.drones);
    charges = refund_charge_to_wallet-frame (λ r. IsAllocated r.drones);
  };
  updates = λ id guard change t db h. h;
}

abbrev pub Balanced : List User → List WalletTransaction → Type 0
Balanced users txns =
    IsKeyed user_key users
    × ((uid : ℕ)
        → balance_or_zero (find user_key uid users) + sum_by (debited uid) txns
          ≡ sum_by (credited uid) txns)

release_for_delivery-IsReconciled : (did : ℕ) → Keeps IsReconciled (release_for_delivery did)
release_for_delivery-IsReconciled did db h =
    let balanced =
      release_for_delivery-frame (λ r. Balanced r.users r.wallet_transactions) did db
        (h.keyed, h.accounted) in
    record { keyed = balanced.0; accounted = balanced.1 }

pub IsReconciled-IsStable : IsStable IsReconciled
unfolding update_delivery release
IsReconciled-IsStable = record {
  settling = record {
    emits = λ e db h. record { keyed = h.keyed; accounted = h.accounted };
    releases = λ id o db h. record { keyed = h.keyed; accounted = h.accounted };
    promos = release_for_delivery-IsReconciled;
    spends = refund_for_delivery-IsReconciled;
    charges = refund_charge_to_wallet-IsReconciled;
  };
  updates = λ id guard change t db h. record { keyed = h.keyed; accounted = h.accounted };
}

-- The promo tables: exact counters, one active redemption of a code by a user, and one redemption
-- of a delivery.
pub record Tallied (codes : List PromoCode) (redemptions : List PromoRedemption) : Type 0 where
  pub keyed : IsKeyed code_key codes
  pub counted : (k : ℕ) → times_of (find code_key k codes) ≡ count (is_active_for k) redemptions
  pub per_user : (k uid : ℕ) → count (is_redemption_of k uid) redemptions ≤ 1
  pub one_each : IsKeyed redemption_key redemptions

abbrev pub IsTallied : Db → Type 0
IsTallied db = Tallied db.promo_codes db.redemptions

flip-one_each :
    (did code_id : ℕ)
    → KeepsOk (λ db. IsKeyed redemption_key db.redemptions) (flip_and_decrement did code_id)
unfolding flip_and_decrement flip_redemption decrement_counter
flip-one_each did code_id =
    >>=-KeepsOk (λ db. IsKeyed redemption_key db.redemptions) (flip_redemption did)
      (λ n. when (leb 1 n) (decrement_counter code_id))
      (λ db h. IsKeyed-update_many redemption_key (is_held_by did) _ db.redemptions (λ r. refl) h)
      (λ n.
        when-KeepsOk (λ db. IsKeyed redemption_key db.redemptions) (leb 1 n)
          (decrement_counter code_id) (λ db h. h))

release_found-one_each :
    (did : ℕ) (o : Option PromoRedemption)
    → Keeps (λ db. IsKeyed redemption_key db.redemptions) (release_found did o)
unfolding release_found
release_found-one_each did none db h = h
release_found-one_each did (some r) db h =
    transaction-Keeps (λ d. IsKeyed redemption_key d.redemptions)
      (flip_and_decrement did r.promo_code_id) (flip-one_each did r.promo_code_id) db h

release-one_each :
    (did : ℕ) → Keeps (λ db. IsKeyed redemption_key db.redemptions) (release_for_delivery did)
unfolding release_for_delivery
release-one_each did db h =
    release_found-one_each did (find_first (is_held_by did) db.redemptions) db h

release_for_delivery-IsTallied : (did : ℕ) → Keeps IsTallied (release_for_delivery did)
release_for_delivery-IsTallied did db h =
    let after =
      release-IsCounted did db
        (record { keyed = h.keyed; counted = h.counted; per_user = h.per_user }) h.one_each in
    record {
      keyed = after.keyed;
      counted = after.counted;
      per_user = after.per_user;
      one_each = release-one_each did db h.one_each;
    }

pub IsTallied-IsStable : IsStable IsTallied
unfolding update_delivery release
IsTallied-IsStable = record {
  settling = record {
    emits = λ e db h. h;
    releases = λ id o db h. h;
    promos = release_for_delivery-IsTallied;
    spends = refund_for_delivery-frame (λ r. Tallied r.promo_codes r.redemptions);
    charges = refund_charge_to_wallet-frame (λ r. Tallied r.promo_codes r.redemptions);
  };
  updates = λ id guard change t db h. h;
}
