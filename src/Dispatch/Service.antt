-- ===== src/Dispatch/Service.antt =====
-- src/dispatch/dispatch.service.ts.
use drovery_backend.Base.{
  ℕ, Bool, true, false, not, ◌&&◌, ◌||◌, Option, none, some, List, [], ◌∷◌, is_some, leb, ltb, ◌==◌,
  ◌==?◌, filter, take, length, if◌then◌else◌,
}
use drovery_backend.Base.Int.{ℤ}
use drovery_backend.Base.Table.{find_first, count, update_many, at}
use drovery_backend.Store.{
  Db, Drone, drone_key, available, in_flight, maintenance, is_available, TrackingSource, simulated,
  live, dispatch_no_capacity, dispatch_unavailable, unresolved_location, AppError, Action, ⊤, ok,
  err, pure, throw, modify, ◌>>=◌,
}
use drovery_backend.Dispatch.Feasibility.{
  Distance, MissionRoute, min_dispatch_battery_percent, max_claim_attempts, candidate_limit,
}
use drovery_backend.Dispatch.Ranking.{RankedCandidate, rank_candidates, sort_by}

-- `Partial<MissionRoute>`
pub record PartialRoute : Type 0 where
  pub from_lat : Option ℤ
  pub from_lng : Option ℤ
  pub to_lat : Option ℤ
  pub to_lng : Option ℤ

pub record DispatchRequest : Type 0 where
  pub delivery_id : ℕ
  pub payload : ℕ
  pub route : PartialRoute
  pub is_scheduled : Bool

pub record DispatchDecision : Type 0 where
  pub tracking_source : TrackingSource
  pub drone_id : Option ℕ

pub data ReleaseOutcome : Type 0 where
  return_to_fleet ground_for_inspection : ReleaseOutcome

abbrev pub is_permanent_dispatch_refusal : AppError → Bool
is_permanent_dispatch_refusal dispatch_no_capacity = true
is_permanent_dispatch_refusal _ = false

abbrev pub holds : ℕ → Drone → Bool
holds delivery_id d = d.active_delivery_id ==? delivery_id

abbrev pub released : ReleaseOutcome → Drone → Drone
released return_to_fleet d = record d { active_delivery_id = none; status = available }
released ground_for_inspection d = record d {
  active_delivery_id = none;
  status = maintenance;
  airworthy = false;
}

-- Hand the aircraft back: the claim of this delivery, and of no other.
unfoldable pub release : ℕ → ReleaseOutcome → Action ⊤
release delivery_id outcome =
    modify
      (λ db. record db { drones = update_many (holds delivery_id) (released outcome) db.drones })

abbrev pub is_inspected : Option ℕ → ℕ → Bool
is_inspected none now = true
is_inspected (some due) now = ltb now due

-- The claim's preconditions.
abbrev pub is_claimable : ℕ → Drone → Bool
is_claimable payload d =
    d.airworthy
    && (is_available d.status && (not (is_some d.active_delivery_id) && leb payload d.max_payload))

-- The ranking query's `where`.
abbrev pub is_candidate : ℕ → ℕ → Drone → Bool
is_candidate now payload d =
    is_claimable payload d
    && (leb min_dispatch_battery_percent d.battery_percent && is_inspected d.maintenance_due_at now)

-- `orderBy: [{ maxPayloadKg: 'asc' }, { id: 'asc' }]`
abbrev pub capacity_order : Drone → Drone → Bool
capacity_order a b =
    ltb a.max_payload b.max_payload || (a.max_payload == b.max_payload && leb a.id b.id)

unfoldable pub available_drones : ℕ → Db → List Drone
unfolding sort_by
available_drones payload db =
    take candidate_limit (sort_by capacity_order (filter (is_candidate db.now payload) db.drones))

-- The conditional update of one attempt: the number of rows that it matched.
unfoldable pub claim : ℕ → ℕ → ℕ → Action ℕ
claim delivery_id payload drone_id db = (
  ok (count (at drone_key drone_id (is_claimable payload)) db.drones),
  record db {
    drones =
        update_many (at drone_key drone_id (is_claimable payload))
          (λ d. record d { active_delivery_id = some delivery_id; status = in_flight }) db.drones;
  },
)

-- Claim down a ranking until one sticks. The ranking may be stale.
unfoldable pub claim_down : ℕ → ℕ → List RankedCandidate → Action (Option ℕ)
unfolding claim
claim_down delivery_id payload [] = pure none
claim_down delivery_id payload (c ∷ cs) = do
  won ← claim delivery_id payload c.drone.id
  let rest = claim_down delivery_id payload cs
  if leb 1 won then pure (some c.drone.id) else rest

-- "We cannot carry this at all", or "not right now".
unfoldable pub saturation_error : ℕ → ℕ → Db → AppError
saturation_error payload feasible_count db =
    if feasible_count == 0
      && count (λ (d : Drone). d.airworthy && leb payload d.max_payload) db.drones == 0
    then dispatch_no_capacity
    else dispatch_unavailable

abbrev pub complete_route : PartialRoute → Option MissionRoute
complete_route r = elim r.from_lat [
  | none ↦ none
  | some a ↦ elim r.from_lng [
    | none ↦ none
    | some b ↦ elim r.to_lat [
      | none ↦ none
      | some c ↦ elim r.to_lng [
        | none ↦ none
        | some d ↦ some (record { from_lat = a; from_lng = b; to_lat = c; to_lng = d })
      ]
    ]
  ]
]

-- What follows the claim loop.
unfoldable pub claimed_or_refused : ℕ → ℕ → Option ℕ → Action ℕ
unfolding saturation_error
claimed_or_refused payload feasible_count (some id) db = (ok id, db)
claimed_or_refused payload feasible_count none db =
    (err (saturation_error payload feasible_count db), db)

unfoldable pub claim_ranked : ℕ → ℕ → List RankedCandidate → Action ℕ
unfolding claim_down claimed_or_refused
claim_ranked delivery_id payload ranked = do
  won ← claim_down delivery_id payload (take max_claim_attempts ranked)
  claimed_or_refused payload (length ranked) won

-- A delivery that holds an aircraft already keeps it.
abbrev pub reuse_or_claim : Option Drone → Action ℕ → Action ℕ
reuse_or_claim (some held) m db = (ok held.id, db)
reuse_or_claim none m db = m db

module _ (distance : Distance) where
  -- The aircraft that the delivery holds already, or the first of the ranking that can be claimed.
  unfoldable pub select_and_claim : ℕ → MissionRoute → ℕ → Action ℕ
  unfolding claim_ranked available_drones rank_candidates
  select_and_claim delivery_id route payload db =
      reuse_or_claim (find_first (holds delivery_id) db.drones)
        (claim_ranked delivery_id payload
          (rank_candidates distance route payload (available_drones payload db)))
        db

  unfoldable pub dispatch_live : ℕ → ℕ → Option MissionRoute → Action DispatchDecision
  unfolding select_and_claim
  dispatch_live delivery_id payload none = throw unresolved_location
  dispatch_live delivery_id payload (some route) = do
    drone_id ← select_and_claim delivery_id route payload
    pure (record { tracking_source = live; drone_id = some drone_id })

  -- Decide how the delivery is flown. The flag is `LIVE_DISPATCH`.
  unfoldable pub dispatch : Bool → DispatchRequest → Action DispatchDecision
  unfolding dispatch_live
  dispatch live_dispatch_enabled req =
      if not live_dispatch_enabled || req.is_scheduled
      then pure (record { tracking_source = simulated; drone_id = none })
      else dispatch_live req.delivery_id req.payload (complete_route req.route)
