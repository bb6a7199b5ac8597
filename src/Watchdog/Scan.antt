-- ===== src/Watchdog/Scan.antt =====
-- Which deliveries `scanAndReap` of src/delivery-watchdog/delivery-watchdog.ts fails, and which it
-- leaves.
use drovery_backend.Base.{
  ℕ, ◌≤◌, Bool, true, false, some, List, [], ◌∷◌, ◌≡◌, ◌≢◌, ◌⊎◌, inl, inr, refl, ◌&&◌, ◌==◌,
  Bool-cases, arith, All, filter, map, take, ◌∙◌, if◌then◌else◌, zero, suc,
}
use drovery_backend.Base.Table.{at, count, count-at, IsKeyed}
use drovery_backend.Store.{
  Db, Delivery, delivery_key, includes, watchdog_stuck_statuses, delivery_failed,
}
use drovery_backend.Dispatch.{sort_by, insert_sorted}
use drovery_backend.Deliveries.{find_delivery}
use drovery_backend.Watchdog.Defs.{
  Candidate, candidate_of, candidate_order, is_silent, silent_deliveries, reap_all, watchdog_batch,
}
use drovery_backend.Watchdog.Spares.{is_overdue, reap_spares, reap_hits}

module _ {A : Type 0} (p : A → Bool) where
  count-insert :
      (before : A → A → Bool) (x : A) (xs : List A)
      → count p (insert_sorted before x xs) ≡ count p (x ∷ xs)
  unfolding insert_sorted
  count-insert before x [] = refl
  count-insert before x (y ∷ ys) = elim (Bool-cases (before x y)) [
    | inl e ↦ rw e refl
    | inr e ↦ rw e (ground (arith, count-insert before x ys))
  ]

  count-sort_by : (before : A → A → Bool) (xs : List A) → count p (sort_by before xs) ≡ count p xs
  unfolding sort_by
  count-sort_by before [] = refl
  count-sort_by before (x ∷ xs) =
      count-insert before x (sort_by before xs) ∙ ground (arith, count-sort_by before xs)

  count-take-le : (n : ℕ) (xs : List A) → count p (take n xs) ≤ count p xs
  count-take-le zero xs = omega arith
  count-take-le (suc n) [] = omega arith
  count-take-le (suc n) (x ∷ xs) = ground (arith, count-take-le n xs)

  -- A list that fits is taken whole.
  count-take-fits :
      (n : ℕ) (xs : List A) → count (λ x. true) xs ≤ n → count p (take n xs) ≡ count p xs
  count-take-fits zero [] h = refl
  count-take-fits zero (x ∷ xs) h = absurd (omega (arith, h))
  count-take-fits (suc n) [] h = refl
  count-take-fits (suc n) (x ∷ xs) h = ground (arith, count-take-fits n xs (omega arith))

none_named :
    (id : ℕ) (cs : List Candidate)
    → count (λ (c : Candidate). c.id == id) cs ≡ 0
    → All (λ (c : Candidate). c.id ≢ id) cs
none_named id [] h = tt
none_named id (c ∷ cs) h = (λ q. ground (arith, q), none_named id cs (ground arith))

count-cong :
    {A : Type 0} (p q : A → Bool) (xs : List A) → ((x : A) → p x ≡ q x) → count p xs ≡ count q xs
count-cong p q [] h = refl
count-cong p q (x ∷ xs) h = rw (h x, count-cong p q xs h) refl

count-chosen :
    {A B : Type 0} (p : B → Bool) (f : A → B) (g : A → Bool) (xs : List A)
    → count p (map f (filter g xs)) ≡ count (λ x. g x && p (f x)) xs
count-chosen p f g [] = refl
count-chosen p f g (x ∷ xs) = elim (Bool-cases (g x)) [
  | inl e ↦ rw e (ground (arith, count-chosen p f g xs))
  | inr e ↦ rw e (ground (arith, count-chosen p f g xs))
]

module _ (updated_at : Delivery → ℕ) (seen : Db) (id : ℕ) (d : Delivery)
    (keyed : IsKeyed delivery_key seen.deliveries) (found : find_delivery id seen ≡ some d) where
  -- The rows of a delivery before the cut to a batch.
  abbrev candidates : List Candidate
  candidates =
      sort_by candidate_order
        (map (candidate_of updated_at seen) (filter (is_silent updated_at seen) seen.deliveries))

  chosen :
      (p : Candidate → Bool)
      → count (λ c. c.id == id && p c) candidates
        ≡ (if is_silent updated_at seen d && p (candidate_of updated_at seen d) then 1 else 0)
  chosen p =
      count-sort_by (λ c. c.id == id && p c) candidate_order _
      ∙ count-chosen (λ c. c.id == id && p c) (candidate_of updated_at seen)
          (is_silent updated_at seen) seen.deliveries
      ∙ count-cong _
          (at delivery_key id
            (λ x. is_silent updated_at seen x && p (candidate_of updated_at seen x)))
          seen.deliveries (λ x. swap (is_silent updated_at seen x) (x.id == id) _)
      ∙ count-at delivery_key id _ seen.deliveries keyed
      ∙ rw found refl
    where
      swap : (a b c : Bool) → a && (b && c) ≡ b && (a && c)
      swap a b c = ground arith

  module _ (db : Db) (d' : Delivery) (keyed_now : IsKeyed delivery_key db.deliveries)
      (found_now : find_delivery id db ≡ some d') where
    -- The loop leaves a delivery as it finds it that was not silent when the scan read it (under
    -- ten minutes, not live, or not in a stuck status), or that has left the stuck statuses since.
    pub scan_spares :
        (is_silent updated_at seen d ≡ false) ⊎ (includes watchdog_stuck_statuses d'.status ≡ false)
        → find_delivery id (reap_all seen.now (silent_deliveries updated_at seen) db).1 ≡ some d'
    unfolding silent_deliveries
    scan_spares (inr h) =
        reap_spares seen.now (silent_deliveries updated_at seen) id d' db keyed_now found_now
          (inr h)
    scan_spares (inl h) =
        reap_spares seen.now (silent_deliveries updated_at seen) id d' db keyed_now found_now (
          inl (
            none_named id (silent_deliveries updated_at seen) (
              nothing _ _ (count-take-le (λ c. c.id == id) watchdog_batch candidates) (
                count-cong (λ c. c.id == id) (λ c. c.id == id && true) candidates
                  (λ c. with_true (c.id == id))
                ∙ chosen (λ c. true)
                ∙ rw h refl))))
      where
        nothing : (a b : ℕ) → a ≤ b → b ≡ 0 → a ≡ 0
        nothing a b h e = omega arith

        with_true : (a : Bool) → a ≡ a && true
        with_true a = ground arith

    -- A delivery that is silent when the scan reads it, and still in a stuck status at its turn,
    -- fails, where a batch holds all the silent deliveries.
    pub scan_reaps :
        is_silent updated_at seen d ≡ true
        → includes watchdog_stuck_statuses d'.status ≡ true
        → count (is_silent updated_at seen) seen.deliveries ≤ watchdog_batch
        → let after = (reap_all seen.now (silent_deliveries updated_at seen) db).1 in
          (e : Delivery) × (find_delivery id after ≡ some e) × (e.status ≡ delivery_failed)
    unfolding silent_deliveries
    scan_reaps h k fits =
        reap_hits seen.now (silent_deliveries updated_at seen) id d' db keyed_now found_now k (
          some_row _ (
            count-take-fits (λ c. c.id == id && is_overdue seen.now c) watchdog_batch candidates
              (le_eq _ _ _ all fits)
            ∙ chosen (is_overdue seen.now)
            ∙ rw (h, overdue) refl))
      where
        some_row : (a : ℕ) → a ≡ 1 → 1 ≤ a
        some_row a e = omega arith

        le_eq : (a b c : ℕ) → a ≡ b → b ≤ c → a ≤ c
        le_eq a b c e h = omega arith

        drop_true : (a : Bool) → a && true ≡ a
        drop_true a = ground arith

        all : count (λ c. true) candidates ≡ count (is_silent updated_at seen) seen.deliveries
        all =
            count-sort_by (λ c. true) candidate_order _
            ∙ count-chosen (λ c. true) (candidate_of updated_at seen) (is_silent updated_at seen)
                seen.deliveries
            ∙ count-cong _ (is_silent updated_at seen) seen.deliveries
                (λ x. drop_true (is_silent updated_at seen x))

        overdue : is_overdue seen.now (candidate_of updated_at seen d) ≡ true
        overdue = ground (arith, h)
