-- ===== src/Recurring/Once.antt =====
-- An occurrence of a schedule is made into a delivery once at most: two workers of
-- src/recurring-deliveries/recurring.materializer.ts that read the same cursor do not both claim it.
use drovery_backend.Base.{
  ℕ, zero, suc, ◌≤◌, ◌<◌, true, false, Option, none, some, ◌≡◌, refl, ◌==◌, ltb, Bool-cases, inl,
  inr, arith,
}
use drovery_backend.Base.Table.{at, update_many-count_zero}
use drovery_backend.Store.{Db, RecurringDelivery, Action, ⊤, ok, pure, ◌>>=◌, ◌>>◌}
use drovery_backend.Store.Invariants.{Keeps, >>=-Keeps, ite_Keeps}
use drovery_backend.Dispatch.{Distance}
use drovery_backend.Booking.{Flags, CreateRequest}
use drovery_backend.Recurring.Rule.{Zone}
use drovery_backend.Recurring.Later.{next_is_later}
use drovery_backend.Recurring.Materializer.{
  schedule_key, is_instant, is_at_cursor, claim_cursor, create_instance, settle_claim, next_cursor,
  advance, materialize_schedule, is_missed, to_rule,
}
use drovery_backend.Recurring.Claims.{Claimed, claim-Claims, claim-Keeps, instance-Keeps}

module _ (id cursor : ℕ) where
  module _ (distance : Distance) (flags : Flags) (z : Zone)
      (order : RecurringDelivery → ℕ → CreateRequest) where
    -- Where the cursor goes next, it is not back at an earlier one.
    next_cursor_later :
        (s : RecurringDelivery) (now c a : ℕ)
        → next_cursor distance flags z order s now c ≡ some a
        → c < a
    next_cursor_later s now c a h = elim (Bool-cases (is_missed now c)) [
      | inl e ↦ long_past (next_is_later z (to_rule s) now a (rw e at h)) e
      | inr e ↦ next_is_later z (to_rule s) c a (rw e at h)
    ]
      where
        long_past : now < a → is_missed now c ≡ true → c < a
        long_past k e = ground arith

    -- A cursor past the claimed one, or none.
    abbrev IsPast : Option ℕ → Type 0
    IsPast o = (a : ℕ) → o ≡ some a → cursor < a

    advance-IsPast :
        (s : RecurringDelivery) (now c : ℕ)
        → cursor ≤ c
        → IsPast (next_cursor distance flags z order s now c)
    advance-IsPast s now c h a e = below _ _ h (next_cursor_later s now c a e)
      where
        below : (c a : ℕ) → cursor ≤ c → c < a → cursor < a
        below c a h k = omega (arith, h, k)

    past_elsewhere : (o : Option ℕ) → IsPast o → is_instant o cursor ≡ false
    past_elsewhere none h = refl
    past_elsewhere (some a) h = ground (arith, h a refl)

    settle_claim-Keeps :
        (s : RecurringDelivery) (now c won : ℕ) (rest : Action ⊤)
        → Keeps (Claimed id cursor) rest
        → Keeps (Claimed id cursor) (settle_claim distance flags z order s now c won rest)
    unfolding create_instance
    settle_claim-Keeps s now c won rest h =
        ite_Keeps (Claimed id cursor) (won == 0) (pure tt) _ (λ db k. k)
          (ite_Keeps (Claimed id cursor) (is_missed now c) rest
            (create_instance distance flags z order s c now >> rest) h
            (λ db k. h _ (instance-Keeps id cursor distance flags z order s c now db k)))

    advance-Keeps :
        (s : RecurringDelivery) (now horizon n : ℕ) (o : Option ℕ)
        → IsPast o
        → Keeps (Claimed id cursor) (advance distance flags z order s now horizon n o)
    unfolding advance create_instance
    advance-Keeps s now horizon zero o h db k = k
    advance-Keeps s now horizon (suc n) none h db k = k
    advance-Keeps s now horizon (suc n) (some c) h db k =
        let a = next_cursor distance flags z order s now c in
        let past = advance-IsPast s now c (at_least (h c refl)) in
        let rest : (ℕ → Action ⊤) = λ won.
          settle_claim distance flags z order s now c won
            (advance distance flags z order s now horizon n a) in
        ite_Keeps (Claimed id cursor) (ltb horizon c) (pure tt) (claim_cursor s.id c a >>= rest)
          (λ db k. k)
          (>>=-Keeps (Claimed id cursor) (claim_cursor s.id c a) rest
            (claim-Keeps id cursor s.id c a (past_elsewhere a past))
            (λ won.
              settle_claim-Keeps s now c won (advance distance flags z order s now horizon n a)
                (advance-Keeps s now horizon n a past)))
          db k
      where
        at_least : cursor < c → cursor ≤ c
        at_least k = omega (arith, k)

module _ (distance : Distance) (flags : Flags) (z : Zone)
    (order : RecurringDelivery → ℕ → CreateRequest) (s : RecurringDelivery) (cursor : ℕ)
    (now horizon n : ℕ) where
  -- The call of the worker that comes first.
  first_claim :
      (db : Db)
      → cursor ≤ horizon
      → Claimed s.id cursor
          (advance distance flags z order s now horizon (suc n) (some cursor) db).1
  unfolding advance
  first_claim db due =
      let a = next_cursor distance flags z order s now cursor in
      let past = advance-IsPast s.id cursor distance flags z order s now cursor (omega arith) in
      rw (not_beyond due) (
        settle_claim-Keeps s.id cursor distance flags z order s now cursor _
          (advance distance flags z order s now horizon n a)
          (advance-Keeps s.id cursor distance flags z order s now horizon n a past)
          (claim_cursor s.id cursor a db).1
          (claim-Claims s.id cursor a db
            (past_elsewhere s.id cursor distance flags z order a past)))
    where
      not_beyond : cursor ≤ horizon → ltb horizon cursor ≡ false
      not_beyond h = ground arith

  -- The call of a worker that comes after.
  second_claim :
      (db : Db)
      → Claimed s.id cursor db
      → advance distance flags z order s now horizon (suc n) (some cursor) db ≡ (ok tt, db)
  unfolding advance claim_cursor
  second_claim db k = elim (Bool-cases (ltb horizon cursor)) [
    | inl e ↦ rw e refl
    | inr e ↦
        rw
          (
            e,
            k,
            update_many-count_zero (at schedule_key s.id (is_at_cursor cursor))
                (λ x. record x { next_run_at = next_cursor distance flags z order s now cursor })
                db.recurring_deliveries k,
          )
          refl
  ]

-- A worker that read a schedule at a due cursor leaves none of its rows there. One that read the same
-- cursor, and comes after it, at whatever time and with whatever other columns, changes nothing: no
-- occurrence is made into two deliveries.
pub materialize_once :
    (distance : Distance) (flags : Flags) (z : Zone) (order : RecurringDelivery → ℕ → CreateRequest)
    (s s' : RecurringDelivery) (cursor now now' horizon horizon' : ℕ) (db : Db)
    → s.next_run_at ≡ some cursor
    → s'.id ≡ s.id
    → s'.next_run_at ≡ some cursor
    → cursor ≤ horizon
    → let once = (materialize_schedule distance flags z order s now horizon db).1 in
      materialize_schedule distance flags z order s' now' horizon' once ≡ (ok tt, once)
unfolding materialize_schedule
materialize_once distance flags z order s s' cursor now now' horizon horizon' db e same e' due =
    rw (e, e')
      (second_claim distance flags z order s' cursor now' horizon' 399 _
        (rw same (first_claim distance flags z order s cursor now horizon 399 db due)))
