-- ===== src/Deliveries/Lifecycle.antt =====
-- The life of a delivery under the operations of src/deliveries/deliveries.service.ts: no status
-- goes back, and no terminal status is left.
use drovery_backend.Base.{
  ℕ, Bool, true, Option, none, some, List, ◌≡◌, arith, ◌==◌, Bool-cases, inl, inr,
}
use drovery_backend.Base.Table.{find, map_row, find-update_at}
use drovery_backend.Store.{Db, Delivery, DeliveryStatus, delivery_key}
use drovery_backend.Store.Invariants.{Keeps}
use drovery_backend.Wallet.Frame.{refund_for_delivery-frame, refund_charge_to_wallet-frame}
use drovery_backend.Promo.Frame.{release_for_delivery-frame}
use drovery_backend.Dispatch.{release}
use drovery_backend.Deliveries.Transition.{update_delivery}
use drovery_backend.Deliveries.Stable.{may_become, IsTransition, IsStable}

-- A delivery that was there is there, with its status or a later one.
abbrev pub Later : Option Delivery → Option Delivery → Type 0
Later none o = Unit
Later (some d) none = ⊥
Later (some d) (some e) = may_become d.status e.status ≡ true

-- Every delivery of the first table is in the second, with its status or a later one.
abbrev pub Advanced : List Delivery → List Delivery → Type 0
Advanced before after = (id : ℕ) → Later (find delivery_key id before) (find delivery_key id after)

abbrev pub HasAdvanced : List Delivery → Db → Type 0
HasAdvanced before db = Advanced before db.deliveries

pub may_become_trans :
    (a b c : DeliveryStatus) → may_become a b ≡ true → may_become b c ≡ true → may_become a c ≡ true
may_become_trans a b c h k = ground arith

Later-map_row :
    (guard : Delivery → Bool) (change : Delivery → Delivery) (o p : Option Delivery)
    → IsTransition guard change
    → Later o p
    → Later o (map_row guard change p)
Later-map_row guard change none p t h = tt
Later-map_row guard change (some d) none t h = absurd h
Later-map_row guard change (some d) (some e) t h = elim (Bool-cases (guard e)) [
  | inl g ↦ rw g (may_become_trans d.status e.status (change e).status h (t.moves_on e g))
  | inr g ↦ rw g h
]

update_advances :
    (before : List Delivery) (id : ℕ) (guard : Delivery → Bool) (change : Delivery → Delivery)
    → IsTransition guard change
    → Keeps (HasAdvanced before) (update_delivery id guard change)
unfolding update_delivery
update_advances before id guard change t db h j = elim (Bool-cases (j == id)) [
  | inl e ↦
      rw (find-update_at delivery_key j id guard change db.deliveries t.same_id, e)
        (Later-map_row guard change (find delivery_key j before) (find delivery_key j db.deliveries)
          t (h j))
  | inr e ↦ rw (find-update_at delivery_key j id guard change db.deliveries t.same_id, e) (h j)
]

-- The statements of a delivery's life only advance deliveries.
pub HasAdvanced-IsStable : (before : List Delivery) → IsStable (HasAdvanced before)
unfolding release
HasAdvanced-IsStable before = record {
  settling = record {
    emits = λ e db h. h;
    releases = λ id o db h. h;
    promos = release_for_delivery-frame (λ r. Advanced before r.deliveries);
    spends = refund_for_delivery-frame (λ r. Advanced before r.deliveries);
    charges = refund_charge_to_wallet-frame (λ r. Advanced before r.deliveries);
  };
  updates = update_advances before;
}
