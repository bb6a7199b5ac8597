-- ===== src/Dispatch/Order.antt =====
-- The ranking of src/dispatch/flight-feasibility.ts is a sorted arrangement of the aircraft that
-- pass the check.
use mathlib.Core.List.{Perm}
use mathlib.Core.List.Perm
use drovery_backend.Base.{
  ℕ, ◌≡◌, Bool, true, false, List, [], ◌∷◌, arith, All, inl, inr, Bool-cases,
}
use drovery_backend.Store.{Drone}
use drovery_backend.Dispatch.Feasibility.{
  Distance, MissionRoute, assess_feasibility, is_feasible, mission_distance,
}
use drovery_backend.Dispatch.Ranking.{
  RankedCandidate, goes_before, insert_sorted, sort_by, feasible_candidates, rank_candidates,
}

-- Every element goes before all that follow it.
abbrev pub IsSorted : {A : Type 0} → (A → A → Bool) → List A → Type 0
IsSorted before [] = Unit
IsSorted before (x ∷ xs) = All (λ y. before x y ≡ true) xs × IsSorted before xs

module _ {A : Type 0} (before : A → A → Bool) where
  insert-perm : (x : A) (xs : List A) → Perm (insert_sorted before x xs) (x ∷ xs)
  unfolding insert_sorted
  insert-perm x [] = Perm.refl (x ∷ [])
  insert-perm x (y ∷ ys) = elim (Bool-cases (before x y)) [
    | inl e ↦ rw e (Perm.refl (x ∷ y ∷ ys))
    | inr e ↦ rw e (Perm.trans (Perm.cons y (insert-perm x ys)) (Perm.swap x y ys))
  ]

  pub sort_by-perm : (xs : List A) → Perm (sort_by before xs) xs
  unfolding sort_by
  sort_by-perm [] = Perm.refl []
  sort_by-perm (x ∷ xs) =
      Perm.trans (insert-perm x (sort_by before xs)) (Perm.cons x (sort_by-perm xs))

  module _ (total : (a b : A) → before a b ≡ false → before b a ≡ true)
      (trans : (a b c : A) → before a b ≡ true → before b c ≡ true → before a c ≡ true) where
    All-trans :
        (x y : A) (ys : List A)
        → before x y ≡ true
        → All (λ z. before y z ≡ true) ys
        → All (λ z. before x z ≡ true) ys
    All-trans x y [] h k = tt
    All-trans x y (z ∷ zs) h k = (trans x y z h k.0, All-trans x y zs h k.1)

    All-insert :
        (x y : A) (ys : List A)
        → before x y ≡ true
        → All (λ z. before x z ≡ true) ys
        → All (λ z. before x z ≡ true) (insert_sorted before y ys)
    unfolding insert_sorted
    All-insert x y [] h k = (h, tt)
    All-insert x y (z ∷ zs) h k = elim (Bool-cases (before y z)) [
      | inl e ↦ rw e (h, k)
      | inr e ↦ rw e (k.0, All-insert x y zs h k.1)
    ]

    insert-IsSorted :
        (x : A) (xs : List A) → IsSorted before xs → IsSorted before (insert_sorted before x xs)
    unfolding insert_sorted
    insert-IsSorted x [] h = (tt, tt)
    insert-IsSorted x (y ∷ ys) h = elim (Bool-cases (before x y)) [
      | inl e ↦ rw e ((e, All-trans x y ys e h.0), h)
      | inr e ↦ rw e (All-insert y x ys (total x y e) h.0, insert-IsSorted x ys h.1)
    ]

    pub sort_by-IsSorted : (xs : List A) → IsSorted before (sort_by before xs)
    unfolding sort_by
    sort_by-IsSorted [] = tt
    sort_by-IsSorted (x ∷ xs) = insert-IsSorted x (sort_by before xs) (sort_by-IsSorted xs)

before_total : (a b : RankedCandidate) → goes_before a b ≡ false → goes_before b a ≡ true
before_total a b h = ground arith

before_trans :
    (a b c : RankedCandidate)
    → goes_before a b ≡ true
    → goes_before b c ≡ true
    → goes_before a c ≡ true
before_trans a b c h k = ground arith

verdict-mission :
    (distance : Distance) (route : MissionRoute) (payload : ℕ) (d : Drone)
    → (assess_feasibility distance d route payload).mission ≡ mission_distance distance d route
unfolding assess_feasibility
verdict-mission distance route payload d = ground arith

module _ (distance : Distance) (route : MissionRoute) (payload : ℕ) where
  -- A candidate passes the check, with its mission's length.
  abbrev pub IsChecked : RankedCandidate → Type 0
  IsChecked c =
      (is_feasible (assess_feasibility distance c.drone route payload) ≡ true)
      × (c.mission ≡ mission_distance distance c.drone route)

  feasible-IsChecked :
      (ds : List Drone) → All IsChecked (feasible_candidates distance route payload ds)
  unfolding feasible_candidates
  feasible-IsChecked [] = tt
  feasible-IsChecked (d ∷ ds) =
      elim (Bool-cases (is_feasible (assess_feasibility distance d route payload))) [
        | inl e ↦ rw e ((e, verdict-mission distance route payload d), feasible-IsChecked ds)
        | inr e ↦ rw e (feasible-IsChecked ds)
      ]

  -- The ranking is a sorted arrangement of the aircraft that pass the check: smallest sufficient
  -- capacity first, then the shortest mission, then the id.
  pub rank_candidates-IsSorted :
      (ds : List Drone)
      → IsSorted goes_before (rank_candidates distance route payload ds)
        × Perm
            (rank_candidates distance route payload ds)
            (feasible_candidates distance route payload ds)
        × All IsChecked (feasible_candidates distance route payload ds)
  unfolding rank_candidates
  rank_candidates-IsSorted ds =
      let found = feasible_candidates distance route payload ds in
      (
        sort_by-IsSorted goes_before before_total before_trans found,
        sort_by-perm goes_before found,
        feasible-IsChecked ds,
      )
