-- ===== src/Watchdog/Spares.antt =====
-- What the loop of `scanAndReap` in src/delivery-watchdog/delivery-watchdog.ts leaves alone. The rows
-- that it works on were read before, and may be stale.
use drovery_backend.Base.{
  ℕ, ◌≤◌, Bool, true, false, none, some, List, [], ◌∷◌, ◌≡◌, ◌≢◌, ◌⊎◌, inl, inr, refl, ◌&&◌, ◌==◌,
  Bool-cases, arith, All, ap, sym, ◌∙◌,
}
use drovery_backend.Base.Table.{count, IsKeyed}
use drovery_backend.Store.{
  Db, Delivery, delivery_key, includes, watchdog_stuck_statuses, delivery_failed,
}
use drovery_backend.Deliveries.{find_delivery, set_failed, fail_exceptional}
use drovery_backend.Deliveries.Failed.{fail_hits, fail_misses, fail-Leaves}
use drovery_backend.Watchdog.Defs.{
  Candidate, last_telemetry, is_before, watchdog_silence, reap_reason, reap_all,
}

-- One round of the loop, on a row that is silent for long enough.
abbrev reaped : Candidate → Db → Db
reaped c db = (fail_exceptional c.id (reap_reason c) watchdog_stuck_statuses none db).1

abbrev pub is_overdue : ℕ → Candidate → Bool
is_overdue now c = is_before watchdog_silence now (last_telemetry c)

reaped-IsKeyed :
    (c : Candidate) (db : Db)
    → IsKeyed delivery_key db.deliveries
    → IsKeyed delivery_key (reaped c db).deliveries
reaped-IsKeyed c db = (fail-Leaves c.id (reap_reason c) watchdog_stuck_statuses db).0

-- A row of another delivery, or one whose delivery has moved on.
reaped-spares :
    (c : Candidate) (id : ℕ) (d : Delivery) (db : Db)
    → IsKeyed delivery_key db.deliveries
    → find_delivery id db ≡ some d
    → (c.id ≢ id) ⊎ (includes watchdog_stuck_statuses d.status ≡ false)
    → find_delivery id (reaped c db) ≡ some d
reaped-spares c id d db keyed found h = elim (Bool-cases (id == c.id)) [
  | inr e ↦
      (fail-Leaves c.id (reap_reason c) watchdog_stuck_statuses db).1 id (λ q. ground (arith, q))
      ∙ found
  | inl e ↦ elim h [
    | inl n ↦ absurd (n (ground arith))
    | inr k ↦
        let same : c.id ≡ id = ground arith in
        ap (λ o. find_delivery id o.1)
          (fail_misses c.id db d (reap_reason c) watchdog_stuck_statuses keyed (rw same found) k)
        ∙ found
  ]
]

-- A delivery that none of the rows names, or that is not in a stuck status when its turn comes,
-- stays as it is.
pub reap_spares :
    (now : ℕ) (cs : List Candidate) (id : ℕ) (d : Delivery) (db : Db)
    → IsKeyed delivery_key db.deliveries
    → find_delivery id db ≡ some d
    → All (λ (c : Candidate). c.id ≢ id) cs ⊎ (includes watchdog_stuck_statuses d.status ≡ false)
    → find_delivery id (reap_all now cs db).1 ≡ some d
unfolding reap_all
reap_spares now [] id d db keyed found h = found
reap_spares now (c ∷ cs) id d db keyed found h = elim (Bool-cases (is_overdue now c)) [
  | inl e ↦ rw e (
      reap_spares now cs id d (reaped c db) (reaped-IsKeyed c db keyed)
        (reaped-spares c id d db keyed found (first h)) (rest h))
  | inr e ↦ rw e (reap_spares now cs id d db keyed found (rest h))
]
  where
    first :
        All (λ (x : Candidate). x.id ≢ id) (c ∷ cs)
          ⊎ (includes watchdog_stuck_statuses d.status ≡ false)
        → (c.id ≢ id) ⊎ (includes watchdog_stuck_statuses d.status ≡ false)
    first (inl k) = inl k.0
    first (inr k) = inr k

    rest :
        All (λ (x : Candidate). x.id ≢ id) (c ∷ cs)
          ⊎ (includes watchdog_stuck_statuses d.status ≡ false)
        → All (λ (x : Candidate). x.id ≢ id) cs
          ⊎ (includes watchdog_stuck_statuses d.status ≡ false)
    rest (inl k) = inl k.1
    rest (inr k) = inr k

-- A silent delivery in a stuck status fails, once the loop comes to a row of it.
pub reap_hits :
    (now : ℕ) (cs : List Candidate) (id : ℕ) (d : Delivery) (db : Db)
    → IsKeyed delivery_key db.deliveries
    → find_delivery id db ≡ some d
    → includes watchdog_stuck_statuses d.status ≡ true
    → 1 ≤ count (λ (c : Candidate). c.id == id && is_overdue now c) cs
    → (e : Delivery) × (find_delivery id (reap_all now cs db).1 ≡ some e)
      × (e.status ≡ delivery_failed)
unfolding reap_all
reap_hits now [] id d db keyed found h k = absurd (omega (arith, k))
reap_hits now (c ∷ cs) id d db keyed found h k = elim (Bool-cases (is_overdue now c)) [
  | inr e ↦ rw e (reap_hits now cs id d db keyed found h (ground arith))
  | inl e ↦ elim (Bool-cases (c.id == id)) [
    | inr f ↦ rw e (
        reap_hits now cs id d (reaped c db) (reaped-IsKeyed c db keyed)
          (reaped-spares c id d db keyed found (inl (λ q. ground (arith, q)))) h (ground arith))
    | inl f ↦
        let same : c.id ≡ id = ground arith in
        rw e (
          set_failed delivery_failed (reap_reason c) d,
          reap_spares now cs id (set_failed delivery_failed (reap_reason c) d) (reaped c db)
              (reaped-IsKeyed c db keyed)
              (ap (λ i. find_delivery i (reaped c db)) (sym same)
                ∙ fail_hits c.id db d keyed (rw same found) (reap_reason c) watchdog_stuck_statuses
                    h)
              (inr refl),
          refl,
        )
  ]
]
