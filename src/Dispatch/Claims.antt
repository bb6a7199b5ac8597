-- ===== src/Dispatch/Claims.antt =====
-- The claims of src/dispatch/dispatch.service.ts: an aircraft flies one delivery, and a delivery
-- one aircraft.
use mathlib.Core.Path.{subst}
use drovery_backend.Base.{
  ℕ, ◌+◌, ◌≤◌, ◌≡◌, refl, sym, Bool, true, false, not, ◌||◌, Option, none, some, List, [], ◌∷◌,
  arith, ◌==◌, is_some, if◌then◌else◌, All, inl, inr,
}
use drovery_backend.Base.Table.{
  find_first, at, count, update_many, count-at, IsKeyed, IsKeyed-update_many, All-update_many,
}
use drovery_backend.Store.{Db, Drone, drone_key, in_flight, DroneStatus, Result, ok, err, pure}
use drovery_backend.Store.Invariants.{Keeps, ite_Keeps}
use drovery_backend.Dispatch.Feasibility.{Distance, MissionRoute}
use drovery_backend.Dispatch.Service.{
  DispatchRequest, ReleaseOutcome, return_to_fleet, ground_for_inspection, holds, released, release,
  is_claimable, select_and_claim, dispatch_live, dispatch, complete_route,
}
use drovery_backend.Dispatch.Selection.{
  claimed_by, Selected, select_and_claim-Selected, after_selection, simulated_decision,
}

abbrev pub is_in_flight : DroneStatus → Bool
is_in_flight in_flight = true
is_in_flight _ = false

-- A claimed aircraft is in flight.
abbrev pub FliesClaim : Drone → Type 0
FliesClaim d = is_some d.active_delivery_id ≡ true → is_in_flight d.status ≡ true

pub record IsAllocated (drones : List Drone) : Type 0 where
  pub keyed : IsKeyed drone_key drones
  pub exclusive : (did : ℕ) → count (holds did) drones ≤ 1
  pub flying : All FliesClaim drones

-- What an update of one aircraft's claim does to the number that hold a delivery.
count-holds-claim :
    (did j id payload : ℕ) (xs : List Drone)
    → count (holds j) (update_many (at drone_key id (is_claimable payload)) (claimed_by did) xs)
      ≡ count (holds j) xs
        + (if did == j then count (at drone_key id (is_claimable payload)) xs else 0)
count-holds-claim did j id payload [] = ground arith
count-holds-claim did j id payload (x ∷ xs) = ground (arith, count-holds-claim did j id payload xs)

claim_flies :
    (did id payload : ℕ) (d : Drone)
    → FliesClaim d
    → at drone_key id (is_claimable payload) d ≡ true
    → FliesClaim (claimed_by did d)
claim_flies did id payload d h e = λ _. refl

matches-le-one :
    (id payload : ℕ) (xs : List Drone)
    → IsKeyed drone_key xs
    → count (at drone_key id (is_claimable payload)) xs ≤ 1
matches-le-one id payload xs k = ground (arith, count-at drone_key id (is_claimable payload) xs k)

-- A claim for a delivery that holds no aircraft keeps the allocation.
pub claim-IsAllocated :
    (did id payload : ℕ) (xs : List Drone)
    → IsAllocated xs
    → count (holds did) xs ≡ 0
    → IsAllocated (update_many (at drone_key id (is_claimable payload)) (claimed_by did) xs)
claim-IsAllocated did id payload xs h free = record {
  keyed =
      IsKeyed-update_many drone_key (at drone_key id (is_claimable payload)) (claimed_by did) xs
        (λ d. refl) h.keyed;
  exclusive = λ j. ground (
    arith,
    h.exclusive j,
    count-holds-claim did j id payload xs,
    matches-le-one id payload xs h.keyed,
  );
  flying =
      All-update_many FliesClaim (at drone_key id (is_claimable payload)) (claimed_by did) xs
        (claim_flies did id payload) h.flying;
}

count_zero-find_none :
    {A : Type 0} (p : A → Bool) (xs : List A) → find_first p xs ≡ none → count p xs ≡ 0
count_zero-find_none p [] h = refl
count_zero-find_none p (x ∷ xs) h = ground (arith, count_zero-find_none p xs)

Selected-IsAllocated :
    (did payload : ℕ) (db : Db) (o : Result ℕ × Db)
    → IsAllocated db.drones
    → Selected did payload db o
    → IsAllocated o.1.drones
Selected-IsAllocated did payload db (err e, db') h s = rw s.1 h
Selected-IsAllocated did payload db (ok id, db') h (inl (d, e, i, same)) = rw same h
Selected-IsAllocated did payload db (ok id, db') h (inr (free, one, after)) =
    rw after (
      claim-IsAllocated did id payload db.drones h
        (count_zero-find_none (holds did) db.drones free))

abbrev pub Allocated : Db → Type 0
Allocated db = IsAllocated db.drones

dispatch_live-Allocated :
    (distance : Distance) (did payload : ℕ) (o : Option MissionRoute)
    → Keeps Allocated (dispatch_live distance did payload o)
unfolding dispatch_live
dispatch_live-Allocated distance did payload none db h = h
dispatch_live-Allocated distance did payload (some route) db h =
    let o = select_and_claim distance did route payload db in
    subst (λ (d : Db). IsAllocated d.drones) (sym (after_selection o))
      (Selected-IsAllocated did payload db o h
        (select_and_claim-Selected distance did route payload db))

-- A dispatch, however it ends, leaves each aircraft with one delivery and each delivery with one
-- aircraft at most, and every claimed aircraft in flight.
pub dispatch-Allocated :
    (distance : Distance) (enabled : Bool) (req : DispatchRequest)
    → Keeps Allocated (dispatch distance enabled req)
unfolding dispatch
dispatch-Allocated distance enabled req =
    ite_Keeps Allocated (not enabled || req.is_scheduled) (pure simulated_decision)
      (dispatch_live distance req.delivery_id req.payload (complete_route req.route)) (λ db h. h)
      (dispatch_live-Allocated distance req.delivery_id req.payload (complete_route req.route))

-- What a delivery's release does to the number of aircraft that hold `j`.
count-holds-released :
    (did j : ℕ) (o : ReleaseOutcome) (xs : List Drone)
    → count (holds j) (update_many (holds did) (released o) xs)
      ≡ (if did == j then 0 else count (holds j) xs)
count-holds-released did j o [] = ground arith
count-holds-released did j return_to_fleet (x ∷ xs) =
    ground (arith, count-holds-released did j return_to_fleet xs)
count-holds-released did j ground_for_inspection (x ∷ xs) =
    ground (arith, count-holds-released did j ground_for_inspection xs)

released_key : (o : ReleaseOutcome) (d : Drone) → drone_key (released o d) ≡ drone_key d
released_key return_to_fleet d = refl
released_key ground_for_inspection d = refl

released_flies : (o : ReleaseOutcome) (d : Drone) → FliesClaim (released o d)
released_flies return_to_fleet d e = cc
released_flies ground_for_inspection d e = cc

-- The release of a delivery keeps the allocation.
pub release-Allocated : (did : ℕ) (o : ReleaseOutcome) → Keeps Allocated (release did o)
unfolding release
release-Allocated did o db h = record {
  keyed = IsKeyed-update_many drone_key (holds did) (released o) db.drones (released_key o) h.keyed;
  exclusive = λ j. ground (arith, h.exclusive j, count-holds-released did j o db.drones);
  flying =
      All-update_many FliesClaim (holds did) (released o) db.drones (λ d p e. released_flies o d)
        h.flying;
}

-- The release of a delivery frees its aircraft, and leaves the claim of every other delivery.
pub release_lem :
    (did j : ℕ) (o : ReleaseOutcome) (db : Db)
    → count (holds j) (release did o db).1.drones
      ≡ (if did == j then 0 else count (holds j) db.drones)
unfolding release
release_lem did j o db = count-holds-released did j o db.drones
