-- ===== src/Dispatch/Ranking.antt =====
-- `rankCandidates` of src/dispatch/flight-feasibility.ts. `Array.prototype.sort` is a stable sort,
-- here by insertion.
use drovery_backend.Base.{ℕ, Bool, ◌&&◌, ◌||◌, List, [], ◌∷◌, leb, ltb, ◌==◌, if◌then◌else◌}
use drovery_backend.Store.{Drone}
use drovery_backend.Dispatch.Feasibility.{Distance, MissionRoute, assess_feasibility, is_feasible}

pub record RankedCandidate : Type 0 where
  pub drone : Drone
  pub mission : ℕ

-- `compare(a, b) <= 0`: by capacity, then by distance, then by id.
abbrev pub goes_before : RankedCandidate → RankedCandidate → Bool
goes_before a b =
    ltb a.drone.max_payload b.drone.max_payload
    || (a.drone.max_payload == b.drone.max_payload
        && (ltb a.mission b.mission || (a.mission == b.mission && leb a.drone.id b.drone.id)))

module _ {A : Type 0} (before : A → A → Bool) where
  unfoldable pub insert_sorted : A → List A → List A
  insert_sorted x [] = x ∷ []
  insert_sorted x (y ∷ ys) =
      let rest = insert_sorted x ys in if before x y then x ∷ y ∷ ys else y ∷ rest

  unfoldable pub sort_by : List A → List A
  unfolding insert_sorted
  sort_by [] = []
  sort_by (x ∷ xs) = insert_sorted x (sort_by xs)

module _ (distance : Distance) (route : MissionRoute) (payload : ℕ) where
  -- The aircraft that pass the check, with their mission's length.
  unfoldable pub feasible_candidates : List Drone → List RankedCandidate
  feasible_candidates [] = []
  feasible_candidates (d ∷ ds) =
      let rest = feasible_candidates ds in
      let verdict = assess_feasibility distance d route payload in
      if is_feasible verdict then record { drone = d; mission = verdict.mission } ∷ rest else rest

  unfoldable pub rank_candidates : List Drone → List RankedCandidate
  unfolding feasible_candidates sort_by
  rank_candidates ds = sort_by goes_before (feasible_candidates ds)
