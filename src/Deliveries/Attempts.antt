-- ===== src/Deliveries/Attempts.antt =====
-- The handoff of src/deliveries/deliveries.service.ts: the bound on guesses, and who may complete
-- it.
use drovery_backend.Base.{
  ℕ, ◌<◌, ◌+◌, Bool, true, false, none, some, ◌≡◌, refl, All, arith, leb, ◌==◌, Bool-cases, inl,
  inr, ◌||◌,
}
use drovery_backend.Base.Text.{Text}
use drovery_backend.Base.Table.{
  at, find, count, count-at, update_many, find-update_at, IsKeyed, All-update_many,
}
use drovery_backend.Store.{
  Db, Delivery, delivery_key, status_eq, awaiting_handoff, delivered, Result, ok, err, Action,
  throw, continue_with, delivery_not_found, handoff_invalid_code, handoff_already_completed,
  handoff_not_awaiting,
}
use drovery_backend.Store.Invariants.{Keeps}
use drovery_backend.Wallet.Frame.{refund_for_delivery-frame, refund_charge_to_wallet-frame}
use drovery_backend.Promo.Frame.{release_for_delivery-frame}
use drovery_backend.Dispatch.{release}
use drovery_backend.Deliveries.Transition.{update_delivery, find_delivery}
use drovery_backend.Deliveries.Handoff.{
  has_attempts_left, count_attempt, attempts_of, max_handoff_attempts, handoff_code_matches,
  lock_handoff, reject_code, verify_code, confirm_handoff,
}
use drovery_backend.Deliveries.Exceptions.{fail_exceptional}
use drovery_backend.Deliveries.Stable.{IsSoundHandoff, IsTransition, IsStable}

-- No delivery has counted more wrong codes than are allowed.
abbrev pub HandoffsSound : Db → Type 0
HandoffsSound db = All IsSoundHandoff db.deliveries

update-HandoffsSound :
    (id : ℕ) (guard : Delivery → Bool) (change : Delivery → Delivery)
    → IsTransition guard change
    → Keeps HandoffsSound (update_delivery id guard change)
unfolding update_delivery
update-HandoffsSound id guard change t db h =
    All-update_many IsSoundHandoff (at delivery_key id guard) change db.deliveries
      (λ d k e. t.sound_handoff d (ground arith) k) h

pub HandoffsSound-IsStable : IsStable HandoffsSound
unfolding release
HandoffsSound-IsStable = record {
  settling = record {
    emits = λ e db h. h;
    releases = λ id o db h. h;
    promos = release_for_delivery-frame (λ r. All IsSoundHandoff r.deliveries);
    spends = refund_for_delivery-frame (λ r. All IsSoundHandoff r.deliveries);
    charges = refund_charge_to_wallet-frame (λ r. All IsSoundHandoff r.deliveries);
  };
  updates = update-HandoffsSound;
}

-- A call that does not return.
abbrev Throws : {A : Type 0} → Result A × Db → Type 0
Throws (ok a, db) = ⊥
Throws (err e, db) = Unit

Throws-then :
    {A B : Type 0} (o : Result A × Db) (k : A → Action B)
    → ((a : A) (db : Db) → Throws (k a db))
    → Throws (continue_with k o)
Throws-then (ok a, db) k h = h a db
Throws-then (err e, db) k h = tt

lock-Throws : (id : ℕ) (db : Db) → Throws (lock_handoff id db)
unfolding lock_handoff
lock-Throws id db = Throws-then (fail_exceptional id _ _ none db) (λ _. throw _) (λ a db. tt)

reject-Throws : (id : ℕ) (db : Db) → Throws (reject_code id db)
unfolding reject_code
reject-Throws id db =
    Throws-then (update_delivery id has_attempts_left count_attempt db) _ (λ n db'.
      elim (Bool-cases (n == 0 || leb max_handoff_attempts (attempts_of (find_delivery id db')))) [
        | inl e ↦ rw e (lock-Throws id db')
        | inr e ↦ rw e tt
      ])

returned : {A : Type 0} (X : Type 0) (o : Result A × Db) (a : A) → Throws o → o.0 ≡ ok a → X
returned X (ok b, db) a h e = absurd h
returned X (err x, db) a h e = cc

-- The owner, a delivery that awaits its handoff, a guess that is left, and the right code.
abbrev pub MayConfirm : (Text → ℕ) → ℕ → Text → Delivery → Type 0
MayConfirm digest uid code d =
    (d.user_id ≡ uid)
    × (status_eq d.status awaiting_handoff ≡ true)
    × (d.handoff_attempts < 5)
    × (handoff_code_matches digest code d.handoff_code_hash ≡ true)

module _ (digest : Text → ℕ) (uid id : ℕ) (code : Text) where
  verified :
      (d out : Delivery) (db : Db)
      → (verify_code digest uid id code d db).0 ≡ ok out
      → (d.handoff_attempts < 5) × (handoff_code_matches digest code d.handoff_code_hash ≡ true)
  unfolding verify_code
  verified d out db h = elim (Bool-cases (leb max_handoff_attempts d.handoff_attempts)) [
    | inl e ↦ returned _ (lock_handoff id db) out (lock-Throws id db) (rw e at h)
    | inr e ↦ elim (Bool-cases (handoff_code_matches digest code d.handoff_code_hash)) [
      | inl m ↦ (ground arith, m)
      | inr m ↦ returned _ (reject_code id db) out (reject-Throws id db) (rw (e, m) at h)
    ]
  ]

  -- A handoff completes only for the owner of a delivery that awaits it, with a guess left and the
  -- right code.
  pub confirm-MayConfirm :
      (d out : Delivery) (db : Db)
      → find_delivery id db ≡ some d
      → (confirm_handoff digest uid id code db).0 ≡ ok out
      → MayConfirm digest uid code d
  unfolding confirm_handoff
  confirm-MayConfirm d out db f h = elim (Bool-cases (d.user_id == uid)) [
    | inr u ↦ returned _ (err delivery_not_found, db) out tt (rw (f, u) at h)
    | inl u ↦ elim (Bool-cases (status_eq d.status delivered)) [
      | inl e ↦ returned _ (err handoff_already_completed, db) out tt (rw (f, u, e) at h)
      | inr e ↦ elim (Bool-cases (status_eq d.status awaiting_handoff)) [
        | inr w ↦ returned _ (err handoff_not_awaiting, db) out tt (rw (f, u, e, w) at h)
        | inl w ↦ let v = verified d out db (rw (f, u, e, w) at h) in (ground arith, w, v.0, v.1)
      ]
    ]
  ]

-- A wrong code with more than one guess left is counted, and changes nothing else.
pub wrong_code_counted :
    (digest : Text → ℕ) (uid id : ℕ) (code : Text) (d : Delivery) (db : Db)
    → IsKeyed delivery_key db.deliveries
    → find_delivery id db ≡ some d
    → d.user_id ≡ uid
    → status_eq d.status awaiting_handoff ≡ true
    → d.handoff_attempts + 1 < 5
    → handoff_code_matches digest code d.handoff_code_hash ≡ false
    → confirm_handoff digest uid id code db ≡ (
      err handoff_invalid_code,
      record db {
        deliveries = update_many (at delivery_key id has_attempts_left) count_attempt db.deliveries;
      },
    )
unfolding confirm_handoff verify_code reject_code update_delivery
wrong_code_counted digest uid id code d db keyed f u s left wrong =
    let one : count (at delivery_key id has_attempts_left) db.deliveries ≡ 1 =
      ground (arith, count-at delivery_key id has_attempts_left db.deliveries keyed) in
    let after : find delivery_key id
          (update_many (at delivery_key id has_attempts_left) count_attempt db.deliveries)
        ≡ some (count_attempt d) =
      ground (
        arith,
        find-update_at delivery_key id id has_attempts_left count_attempt db.deliveries (λ x. refl),
      ) in
    let owner : (d.user_id == uid) ≡ true = ground arith in
    let undelivered : status_eq d.status delivered ≡ false = ground arith in
    let unlocked : leb max_handoff_attempts d.handoff_attempts ≡ false = ground arith in
    let left_after : leb max_handoff_attempts (d.handoff_attempts + 1) ≡ false = ground arith in
    rw (f, owner, undelivered, s, unlocked, wrong, one, after, left_after) refl
