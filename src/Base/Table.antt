-- ===== src/Base/Table.antt =====
-- A database table as a list of rows, and the statements that the services issue on one:
-- `findFirst`, `count` and `updateMany`, each with a row predicate for its `where`.
use Prim.Native.Nat.{ℕ, ◌+◌, ◌≤◌}
use mathlib.Core.Path.{◌≡◌, refl}
use mathlib.Core.Logic.{◌≢◌, inl, inr}
use mathlib.Core.Bool.{Bool, true, false, ◌&&◌}
use mathlib.Core.Option.{Option, none, some}
use mathlib.Core.List.{List, [], ◌∷◌}
use native.Mathlib.Omega.{arith}
use drovery_backend.Base.Tests.{◌==◌, if◌then◌else◌, Bool-cases}
use drovery_backend.Base.Lists.{All}

module _ {A : Type 0} where
  -- `findFirst({ where })`
  abbrev pub find_first : (A → Bool) → List A → Option A
  find_first p [] = none
  find_first p (x ∷ xs) = if p x then some x else find_first p xs

  -- `count({ where })`
  abbrev pub count : (A → Bool) → List A → ℕ
  count p [] = 0
  count p (x ∷ xs) = (if p x then 1 else 0) + count p xs

  -- The rows after `updateMany({ where, data })`; the call also returns `count`.
  abbrev pub update_many : (A → Bool) → (A → A) → List A → List A
  update_many p f [] = []
  update_many p f (x ∷ xs) = (if p x then f x else x) ∷ update_many p f xs

  -- An update of one row that may be absent.
  abbrev pub map_row : (A → Bool) → (A → A) → Option A → Option A
  map_row p f none = none
  map_row p f (some x) = some (if p x then f x else x)

  -- How many rows an update by primary key matches.
  abbrev pub matches : (A → Bool) → Option A → ℕ
  matches p none = 0
  matches p (some x) = if p x then 1 else 0

  -- An update that matches no row changes nothing.
  pub update_many-count_zero :
      (p : A → Bool) (f : A → A) (xs : List A) → count p xs ≡ 0 → update_many p f xs ≡ xs
  update_many-count_zero p f [] h = refl
  update_many-count_zero p f (x ∷ xs) h = ground (arith, update_many-count_zero p f xs)

  -- Nothing is found where nothing is counted.
  pub find_first-count_zero : (p : A → Bool) (xs : List A) → count p xs ≡ 0 → find_first p xs ≡ none
  find_first-count_zero p [] h = refl
  find_first-count_zero p (x ∷ xs) h = ground (arith, find_first-count_zero p xs)

  -- What is found meets the guard.
  pub find_first_meets :
      (p : A → Bool) (xs : List A) {x : A} → find_first p xs ≡ some x → p x ≡ true
  find_first_meets p [] h = cc
  find_first_meets p (y ∷ xs) {x} h = ground (arith, find_first_meets p xs {x = x})

  -- Where the update falsifies its own guard, it leaves no row that matches.
  pub count-update_many_falsified :
      (p : A → Bool) (f : A → A) (xs : List A)
      → ((x : A) → p x ≡ true → p (f x) ≡ false)
      → count p (update_many p f xs) ≡ 0
  count-update_many_falsified p f [] h = refl
  count-update_many_falsified p f (x ∷ xs) h =
      ground (arith, h x, count-update_many_falsified p f xs h)

  pub All-update_many :
      (P : A → Type 0) (p : A → Bool) (f : A → A) (xs : List A)
      → ((x : A) → P x → p x ≡ true → P (f x))
      → All P xs
      → All P (update_many p f xs)
  All-update_many P p f [] keep h = tt
  All-update_many P p f (x ∷ xs) keep h =
      let rest = All-update_many P p f xs keep h.1 in
      elim (Bool-cases (p x)) [ inl e ↦ rw e (keep x h.0 e, rest) | inr e ↦ rw e (h.0, rest) ]

-- Rows with a primary key.
module _ {A : Type 0} (key : A → ℕ) where
  -- `where: { id: k, ... }`
  abbrev pub at : ℕ → (A → Bool) → A → Bool
  at k p x = key x == k && p x

  -- `findFirst({ where: { id: k } })`
  abbrev pub find : ℕ → List A → Option A
  find k = find_first (λ x. key x == k)

  -- The primary key names at most one row.
  abbrev pub IsKeyed : List A → Type 0
  IsKeyed [] = Unit
  IsKeyed (x ∷ xs) = All (λ y. key y ≢ key x) xs × IsKeyed xs

  count-at_absent :
      (k : ℕ) (p : A → Bool) (xs : List A) → All (λ y. key y ≢ k) xs → count (at k p) xs ≡ 0
  count-at_absent k p [] h = refl
  count-at_absent k p (x ∷ xs) h = ground (arith, h.0, count-at_absent k p xs h.1)

  -- An update by primary key matches the row that a lookup finds, and no other.
  pub count-at :
      (k : ℕ) (p : A → Bool) (xs : List A) → IsKeyed xs → count (at k p) xs ≡ matches p (find k xs)
  count-at k p [] h = refl
  count-at k p (x ∷ xs) h = elim (Bool-cases (key x == k)) [
    | inl e ↦
        let same : key x ≡ k = ground arith in
        let none_left : count (at k p) xs ≡ 0 = count-at_absent k p xs (rw same at h.0) in
        rw (e, none_left) (ground arith)
    | inr e ↦ rw e (omega (arith, count-at k p xs h.1))
  ]

  -- A row that a lookup finds is counted where the guard holds of it.
  pub count-pos :
      (k : ℕ) (p : A → Bool) (xs : List A) {x : A}
      → find k xs ≡ some x
      → p x ≡ true
      → 1 ≤ count p xs
  count-pos k p [] e h = cc
  count-pos k p (y ∷ xs) {x} e h = ground (arith, count-pos k p xs {x = x})

  -- A lookup after an update finds the updated row.
  pub find-update_many :
      (j : ℕ) (p : A → Bool) (f : A → A) (xs : List A)
      → ((x : A) → key (f x) ≡ key x)
      → find j (update_many p f xs) ≡ map_row p f (find j xs)
  find-update_many j p f [] keep = refl
  find-update_many j p f (x ∷ xs) keep = ground (arith, keep x, find-update_many j p f xs keep)

  -- What a lookup finds has the key that was looked up.
  pub find-key : (k : ℕ) (xs : List A) {x : A} → find k xs ≡ some x → key x ≡ k
  find-key k [] h = cc
  find-key k (y ∷ xs) {x} h = ground (arith, find-key k xs {x = x})

  -- A guarded update by primary key, looked up.
  pub find-update_at :
      (j k : ℕ) (p : A → Bool) (f : A → A) (xs : List A)
      → ((x : A) → key (f x) ≡ key x)
      → find j (update_many (at k p) f xs) ≡ (if j == k then map_row p f (find j xs) else find j xs)
  find-update_at j k p f [] keep = ground arith
  find-update_at j k p f (x ∷ xs) keep = ground (arith, keep x, find-update_at j k p f xs keep)

  All_ne-update_many :
      (k : ℕ) (p : A → Bool) (f : A → A) (xs : List A)
      → ((x : A) → key (f x) ≡ key x)
      → All (λ y. key y ≢ k) xs
      → All (λ y. key y ≢ k) (update_many p f xs)
  All_ne-update_many k p f xs keep h =
      All-update_many (λ y. key y ≢ k) p f xs (λ x ne e. λ q. ne (sym_key x q)) h
    where
      sym_key : (x : A) → key (f x) ≡ k → key x ≡ k
      sym_key x q = cc (keep x)

  -- An update that keeps the keys keeps them unique.
  pub IsKeyed-update_many :
      (p : A → Bool) (f : A → A) (xs : List A)
      → ((x : A) → key (f x) ≡ key x)
      → IsKeyed xs
      → IsKeyed (update_many p f xs)
  IsKeyed-update_many p f [] keep h = tt
  IsKeyed-update_many p f (x ∷ xs) keep h =
      let rest = All_ne-update_many (key x) p f xs keep h.0 in
      elim (Bool-cases (p x)) [
        | inl e ↦ rw (e, keep x) (rest, IsKeyed-update_many p f xs keep h.1)
        | inr e ↦ rw e (rest, IsKeyed-update_many p f xs keep h.1)
      ]
