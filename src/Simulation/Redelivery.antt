-- ===== src/Simulation/Redelivery.antt =====
-- The queue of src/deliveries/simulation/simulation.processor.ts may deliver a stage job twice, or
-- after a later one: the compare and set of the stage makes it a no-op.
use drovery_backend.Base.{
  ℕ, zero, suc, ◌+◌, ◌≤◌, ◌<◌, Bool, true, false, some, List, [], ◌∷◌, ◌≡◌, refl, ◌&&◌, ◌==◌,
  Option-cases, inl, inr, length, arith, leb, ltb, ap, ◌∙◌, sym, if◌then◌else◌,
}
use drovery_backend.Base.Table.{
  at, count, count-at, update_many, IsKeyed, count-update_many_falsified, update_many-count_zero,
}
use drovery_backend.Store.{
  Db, delivery_key, DeliveryStatus, status_index, statuses_before, includes, ok, pure,
}
use drovery_backend.Dispatch.{MissionRoute}
use drovery_backend.Deliveries.{find_delivery, update_delivery, status_in, set_status}
use drovery_backend.Tracking.{update_tracking}
use drovery_backend.Simulation.Timeline.{SimStage, stages, get_elem?}
use drovery_backend.Simulation.Stages.{stage_effects, advance_stage, stage_at, handle_stage}

-- The statuses before that of a stage, by their place in the enumeration.
before_iff :
    (s x : DeliveryStatus)
    → leb (status_index s) 7 ≡ true
    → includes (statuses_before s) x
      ≡ (leb 1 (status_index x) && ltb (status_index x) (status_index s))
before_iff s x h = ground arith

stage_place :
    (i : ℕ) (s : SimStage) → get_elem? stages i ≡ some s → (status_index s.status ≡ i + 2) × (i < 5)
stage_place zero s e = ground (arith, e)
stage_place (suc zero) s e = ground (arith, e)
stage_place (suc (suc zero)) s e = ground (arith, e)
stage_place (suc (suc (suc zero))) s e = ground (arith, e)
stage_place (suc (suc (suc (suc zero)))) s e = ground (arith, e)
stage_place (suc (suc (suc (suc (suc i))))) s e = cc

not_before_itself :
    (s : DeliveryStatus) → leb (status_index s) 7 ≡ true → includes (statuses_before s) s ≡ false
not_before_itself s h = ground arith

before_mono :
    (s t x : DeliveryStatus)
    → leb (status_index s) 7 ≡ true
    → status_index t ≤ status_index s
    → includes (statuses_before t) x ≡ true
    → includes (statuses_before s) x ≡ true
before_mono s t x h k e =
    before_iff s x h
    ∙ below (status_index x) (status_index t) (status_index s) k
        (sym (before_iff t x (low (status_index t) (status_index s) k h)) ∙ e)
  where
    below : (a b c : ℕ) → b ≤ c → leb 1 a && ltb a b ≡ true → leb 1 a && ltb a c ≡ true
    below a b c h e = ground arith

    low : (b c : ℕ) → b ≤ c → leb c 7 ≡ true → leb b 7 ≡ true
    low b c h e = ground arith

and_false : (a b : Bool) → b ≡ false → a && b ≡ false
and_false a b h = ground arith

and_wider : (a b c : Bool) → (b ≡ true → c ≡ true) → a && b ≡ true → a && c ≡ true
and_wider true b c h e = h e
and_wider false b c h e = e

-- Where a wider guard counts nothing, a narrower one counts nothing.
count-narrower :
    {A : Type 0} (p q : A → Bool) (xs : List A)
    → ((x : A) → p x ≡ true → q x ≡ true)
    → count q xs ≡ 0
    → count p xs ≡ 0
count-narrower p q [] h k = refl
count-narrower p q (x ∷ xs) h k = ground (arith, h x, count-narrower p q xs h)

stage_there : (i : ℕ) → i < 5 → (s : SimStage) × (get_elem? stages i ≡ some s)
stage_there zero h = (_, refl)
stage_there (suc zero) h = (_, refl)
stage_there (suc (suc zero)) h = (_, refl)
stage_there (suc (suc (suc zero))) h = (_, refl)
stage_there (suc (suc (suc (suc zero)))) h = (_, refl)
stage_there (suc (suc (suc (suc (suc i))))) h = absurd (omega (arith, h))

-- No row of the delivery is left that the stage could advance.
abbrev IsPast : ℕ → DeliveryStatus → Db → Type 0
IsPast id s db = count (at delivery_key id (status_in (statuses_before s))) db.deliveries ≡ 0

-- A row that a stage could not advance, no earlier stage could.
earlier-IsPast :
    (id : ℕ) (s t : DeliveryStatus) (db : Db)
    → leb (status_index s) 7 ≡ true
    → status_index t ≤ status_index s
    → IsPast id s db
    → IsPast id t db
earlier-IsPast id s t db h k past =
    count-narrower _ _ db.deliveries
      (λ x e. and_wider (x.id == id) _ _ (before_mono s t x.status h k) e) past

module _ (id : ℕ) (c : MissionRoute) where
  effects-deliveries :
      (s : DeliveryStatus) (lost : Bool) (db : Db)
      → ((if lost then pure tt else stage_effects id s c) db).1.deliveries ≡ db.deliveries
  unfolding stage_effects update_tracking
  effects-deliveries s true db = refl
  effects-deliveries s false db = refl

  advance-deliveries :
      (s : DeliveryStatus) (db : Db)
      → (advance_stage id s c db).1.deliveries
        ≡ update_many
            (at delivery_key id (status_in (statuses_before s)))
            (set_status s)
            db.deliveries
  unfolding advance_stage update_delivery
  advance-deliveries s db = effects-deliveries s _ _

  advanced-IsPast :
      (s : DeliveryStatus) (db : Db)
      → leb (status_index s) 7 ≡ true
      → IsPast id s (advance_stage id s c db).1
  advanced-IsPast s db h =
      ap (count (at delivery_key id (status_in (statuses_before s)))) (advance-deliveries s db)
      ∙ count-update_many_falsified (at delivery_key id (status_in (statuses_before s)))
          (set_status s) db.deliveries
          (λ x e. and_false (x.id == id) (includes (statuses_before s) s) (not_before_itself s h))

  past_inert :
      (s : DeliveryStatus) (db : Db) → IsPast id s db → advance_stage id s c db ≡ (ok tt, db)
  unfolding advance_stage update_delivery
  past_inert s db h =
      rw
        (
          h,
          update_many-count_zero (at delivery_key id (status_in (statuses_before s))) (set_status s)
              db.deliveries h,
        )
        refl

module _ (id i : ℕ) (c : MissionRoute) (s : SimStage) (at_i : get_elem? stages i ≡ some s) where
  handled-IsPast :
      (db : Db) → IsKeyed delivery_key db.deliveries → IsPast id s.status (handle_stage id c i db).1
  unfolding handle_stage stage_at
  handled-IsPast db keyed = elim (Option-cases (find_delivery id db)) [
    | inl n ↦
        rw (at_i, n)
          (ground (
            arith,
            n,
            count-at delivery_key id (status_in (statuses_before s.status)) db.deliveries keyed,
          ))
    | inr (d, n) ↦
        rw (at_i, n) (advanced-IsPast id c s.status db (ground (arith, stage_place i s at_i)))
  ]

  past_handled : (db : Db) → IsPast id s.status db → handle_stage id c i db ≡ (ok tt, db)
  unfolding handle_stage stage_at
  past_handled db past = elim (Option-cases (find_delivery id db)) [
    | inl n ↦ rw (at_i, n) refl
    | inr (d, n) ↦ rw (at_i, n) (past_inert id c s.status db past)
  ]

-- A stage job that comes again, or after the job of a later stage, changes nothing.
pub stage_late :
    (id i j : ℕ) (c c' : MissionRoute) (db : Db)
    → IsKeyed delivery_key db.deliveries
    → j ≤ i
    → i < length stages
    → let once = (handle_stage id c i db).1 in handle_stage id c' j once ≡ (ok tt, once)
stage_late id i j c c' db keyed h k =
    let (s, at_i) = stage_there i k in
    let (t, at_j) = stage_there j (omega arith) in
    past_handled id j c' t at_j (handle_stage id c i db).1 (
      earlier-IsPast id s.status t.status (handle_stage id c i db).1
        (ground (arith, stage_place i s at_i))
        (omega (arith, (stage_place i s at_i).0, (stage_place j t at_j).0))
        (handled-IsPast id i c s at_i db keyed))
