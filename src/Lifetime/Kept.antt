-- ===== src/Lifetime/Kept.antt =====
-- The invariants of the ledgers, the fleet, the promo codes, the handoff and the deliveries' progress
-- under every driver of a flight.
use drovery_backend.Base.{ℕ, ◌≡◌, refl, List, [], ◌∷◌, arith, Bool-cases, inl, inr}
use drovery_backend.Base.Table.{count, update_many, IsKeyed-update_many, All-update_many}
use drovery_backend.Store.{Drone, Delivery, drone_key, modify}
use drovery_backend.Store.Invariants.{Keeps}
use drovery_backend.Wallet.Reconcile.{IsReconciled}
use drovery_backend.Dispatch.{holds}
use drovery_backend.Dispatch.Claims.{Allocated, FliesClaim, dispatch-Allocated}
use drovery_backend.Dispatch.Effects.{dispatch-Keeps}
use drovery_backend.Commands.Driven.{IsDriven, IsReading, read_drone}
use drovery_backend.Deliveries.Lifecycle.{HasAdvanced, HasAdvanced-IsStable}
use drovery_backend.Deliveries.Ledgers.{
  Allocated-IsStable, IsReconciled-IsStable, IsTallied, IsTallied-IsStable,
}
use drovery_backend.Wallet.Frame.{reward-frame, debit-frame}
use drovery_backend.Promo.Frame.{redeem-frame}
use drovery_backend.Booking.Books.{IsBookable}
use drovery_backend.Booking.Keepers.{insert-KeepsOk}
use drovery_backend.Commands.Open.{OneOpen}
use drovery_backend.Commands.Acks.{HasOneOpen, HasOneOpen-IsStable}
use drovery_backend.Deliveries.Attempts.{HandoffsSound, HandoffsSound-IsStable}

count-holds-reading :
    (id j : ℕ) (change : Drone → Drone) (xs : List Drone)
    → IsReading change
    → count (holds j) (update_many (holds id) change xs) ≡ count (holds j) xs
count-holds-reading id j change [] r = refl
count-holds-reading id j change (x ∷ xs) r = elim (Bool-cases (holds id x)) [
  | inl e ↦ rw (e, r.same_claim x) (ground (arith, count-holds-reading id j change xs r))
  | inr e ↦ rw e (ground (arith, count-holds-reading id j change xs r))
]

reading_flies :
    (change : Drone → Drone) (d : Drone) → IsReading change → FliesClaim d → FliesClaim (change d)
reading_flies change d r h = rw (r.same_claim d, r.same_status d) h

reading-Allocated :
    (id : ℕ) (change : Drone → Drone)
    → IsReading change
    → Keeps Allocated (modify (read_drone id change))
reading-Allocated id change r db h = record {
  keyed = IsKeyed-update_many drone_key (holds id) change db.drones r.same_drone h.keyed;
  exclusive = λ j. rw (count-holds-reading id j change db.drones r) (h.exclusive j);
  flying =
      All-update_many FliesClaim (holds id) change db.drones (λ d p e. reading_flies change d r p)
        h.flying;
}

pub Allocated-IsDriven : IsDriven Allocated
Allocated-IsDriven = record {
  stable = Allocated-IsStable;
  observes = λ db ts rs h. h;
  orders = λ db cs keep h. h;
  reads = reading-Allocated;
  dispatches = dispatch-Allocated;
}

pub IsReconciled-IsDriven : IsDriven IsReconciled
IsReconciled-IsDriven = record {
  stable = IsReconciled-IsStable;
  observes = λ db ts rs h. record { keyed = h.keyed; accounted = h.accounted };
  orders = λ db cs keep h. record { keyed = h.keyed; accounted = h.accounted };
  reads = λ id change r db h. record { keyed = h.keyed; accounted = h.accounted };
  dispatches =
      dispatch-Keeps IsReconciled (λ db ds h. record { keyed = h.keyed; accounted = h.accounted });
}

pub IsTallied-IsDriven : IsDriven IsTallied
IsTallied-IsDriven = record {
  stable = IsTallied-IsStable;
  observes = λ db ts rs h. h;
  orders = λ db cs keep h. h;
  reads = λ id change r db h. h;
  dispatches = dispatch-Keeps IsTallied (λ db ds h. h);
}

pub HandoffsSound-IsDriven : IsDriven HandoffsSound
HandoffsSound-IsDriven = record {
  stable = HandoffsSound-IsStable;
  observes = λ db ts rs h. h;
  orders = λ db cs keep h. h;
  reads = λ id change r db h. h;
  dispatches = dispatch-Keeps HandoffsSound (λ db ds h. h);
}

pub HasAdvanced-IsDriven : (before : List Delivery) → IsDriven (HasAdvanced before)
HasAdvanced-IsDriven before = record {
  stable = HasAdvanced-IsStable before;
  observes = λ db ts rs h. h;
  orders = λ db cs keep h. h;
  reads = λ id change r db h. h;
  dispatches = dispatch-Keeps (HasAdvanced before) (λ db ds h. h);
}

pub HasOneOpen-IsBookable : IsBookable HasOneOpen
HasOneOpen-IsBookable = record {
  stable = HasOneOpen-IsStable;
  outbox = λ db es h. h;
  registers = λ db es h. h;
  pays = λ db ps h. h;
  inserts = insert-KeepsOk HasOneOpen (λ db ds h. h);
  redeems = redeem-frame (λ r. OneOpen r.commands);
  debits = debit-frame (λ r. OneOpen r.commands);
  rewards = reward-frame (λ r. OneOpen r.commands);
}
