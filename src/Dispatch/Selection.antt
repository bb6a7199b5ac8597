-- ===== src/Dispatch/Selection.antt =====
-- How the selection of src/dispatch/dispatch.service.ts ends: a claim on an aircraft, the reuse of
-- one, or a refusal.
use drovery_backend.Base.{
  ℕ, ◌≤◌, ◌≡◌, refl, Option, none, some, List, [], ◌∷◌, arith, leb, inl, inr, ◌⊎◌, Bool-cases, take,
  length,
}
use drovery_backend.Base.Table.{find_first, at, count, update_many, update_many-count_zero}
use drovery_backend.Store.{
  Db, Drone, drone_key, in_flight, Result, ok, err, continue_with, pure, Action, live, simulated,
}
use drovery_backend.Dispatch.Feasibility.{Distance, MissionRoute}
use drovery_backend.Dispatch.Ranking.{RankedCandidate, rank_candidates}
use drovery_backend.Dispatch.Service.{
  DispatchDecision, holds, is_claimable, claim_down, claim_ranked, claimed_or_refused,
  select_and_claim, reuse_or_claim, available_drones,
}

abbrev pub claimed_by : ℕ → Drone → Drone
claimed_by did d = record d { active_delivery_id = some did; status = in_flight }

-- How a run down a ranking ends: with a claim on an aircraft that could be claimed, or with the
-- database as it was.
abbrev pub Outcome : ℕ → ℕ → Db → Result (Option ℕ) × Db → Type 0
Outcome did payload db (ok none, db') = db' ≡ db
Outcome did payload db (ok (some id), db') =
    (1 ≤ count (at drone_key id (is_claimable payload)) db.drones)
    × (db' ≡ record db {
      drones = update_many (at drone_key id (is_claimable payload)) (claimed_by did) db.drones;
    })
Outcome did payload db (err e, db') = ⊥

-- However stale the ranking, a run down it claims one aircraft that meets the claim's conditions
-- now, or changes nothing.
pub claim_down-Outcome :
    (did payload : ℕ) (cs : List RankedCandidate) (db : Db)
    → Outcome did payload db (claim_down did payload cs db)
unfolding claim_down
claim_down-Outcome did payload [] db = refl
claim_down-Outcome did payload (c ∷ cs) db =
    elim (Bool-cases (leb 1 (count (at drone_key c.drone.id (is_claimable payload)) db.drones))) [
      | inl e ↦ rw e (ground arith, refl)
      | inr e ↦
          let same =
            update_many-count_zero (at drone_key c.drone.id (is_claimable payload)) (claimed_by did)
              db.drones (ground arith) in
          rw (e, same) (claim_down-Outcome did payload cs db)
    ]

-- `select_and_claim` either reuses the claim that the delivery holds, or ends as a run down a
-- ranking does: with a new claim, or refused with nothing changed.
abbrev pub Selected : ℕ → ℕ → Db → Result ℕ × Db → Type 0
Selected did payload db (ok id, db') =
    ((d : Drone) × (find_first (holds did) db.drones ≡ some d) × (d.id ≡ id) × (db' ≡ db))
    ⊎ ((find_first (holds did) db.drones ≡ none)
        × (1 ≤ count (at drone_key id (is_claimable payload)) db.drones)
        × (db' ≡ record db {
          drones = update_many (at drone_key id (is_claimable payload)) (claimed_by did) db.drones;
        }))
Selected did payload db (err e, db') = (find_first (holds did) db.drones ≡ none) × (db' ≡ db)

ranked-Selected :
    (did payload n : ℕ) (db : Db) (o : Result (Option ℕ) × Db)
    → find_first (holds did) db.drones ≡ none
    → Outcome did payload db o
    → Selected did payload db (continue_with (claimed_or_refused payload n) o)
unfolding claimed_or_refused
ranked-Selected did payload n db (ok none, db') free h = (free, h)
ranked-Selected did payload n db (ok (some id), db') free h = inr (free, h.0, h.1)
ranked-Selected did payload n db (err e, db') free h = absurd h

claim_ranked-Selected :
    (did payload : ℕ) (ranked : List RankedCandidate) (db : Db)
    → find_first (holds did) db.drones ≡ none
    → Selected did payload db (claim_ranked did payload ranked db)
unfolding claim_ranked
claim_ranked-Selected did payload ranked db free =
    ranked-Selected did payload (length ranked) db (claim_down did payload (take 8 ranked) db) free
      (claim_down-Outcome did payload (take 8 ranked) db)

reuse-Selected :
    (did payload : ℕ) (db : Db) (o : Option Drone) (m : Action ℕ)
    → find_first (holds did) db.drones ≡ o
    → (o ≡ none → Selected did payload db (m db))
    → Selected did payload db (reuse_or_claim o m db)
reuse-Selected did payload db none m e h = h refl
reuse-Selected did payload db (some d) m e h = inl (d, e, refl, refl)

-- How the selection ends, whatever the fleet.
pub select_and_claim-Selected :
    (distance : Distance) (did : ℕ) (route : MissionRoute) (payload : ℕ) (db : Db)
    → Selected did payload db (select_and_claim distance did route payload db)
unfolding select_and_claim
select_and_claim-Selected distance did route payload db =
    let ranked = rank_candidates distance route payload (available_drones payload db) in
    reuse-Selected did payload db (find_first (holds did) db.drones)
      (claim_ranked did payload ranked) refl
      (λ free. claim_ranked-Selected did payload ranked db free)

pub after_selection :
    (o : Result ℕ × Db)
    → (continue_with {B = DispatchDecision}
        (λ id. pure (record { tracking_source = live; drone_id = some id }))
        o).1
      ≡ o.1
after_selection (ok id, db) = refl
after_selection (err e, db) = refl

abbrev pub simulated_decision : DispatchDecision
simulated_decision = record { tracking_source = simulated; drone_id = none }
