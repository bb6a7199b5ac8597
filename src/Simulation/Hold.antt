-- ===== src/Simulation/Hold.antt =====
-- The kickoff of src/deliveries/simulation/simulation.processor.ts settles a scheduled delivery: it
-- launches it, gives it up, or puts it off, and not for ever.
use drovery_backend.Base.{
  ℕ, ◌+◌, ◌≤◌, Bool, true, false, Option, none, some, List, [], ◌∷◌, ◌≡◌, inl, inr, refl, ap, ◌∙◌,
  arith, length,
}
use drovery_backend.Base.Table.{find, IsKeyed}
use drovery_backend.Store.{Db, Delivery, delivery_key, scheduled, status_eq}
use drovery_backend.Serviceability.{ServiceabilityResult}
use drovery_backend.Dispatch.{Distance, MissionRoute}
use drovery_backend.Deliveries.{find_delivery}
use drovery_backend.Simulation.Preflight.{preflight_max_attempts}
use drovery_backend.Simulation.Settles.{HasLeft, kickoff-Settles}
use drovery_backend.Simulation.Kickoff.{
  KickoffJob, attempt_of, deferred, kickoff_found, handle_kickoff,
}

-- The world that one kickoff meets: distances, the flag, and the verdict for each route.
pub record Round : Type 0 where
  pub distance : Distance
  pub live : Bool
  pub check : MissionRoute → ServiceabilityResult

-- The queue at work on one delivery: a kickoff runs, with no job waiting, and the job that it put into
-- the queue, if it did, is the next to run.
unfoldable pub kickoffs : List Round → KickoffJob → Db → Db
unfolding handle_kickoff
kickoffs [] job db = db
kickoffs (w ∷ ws) job db =
    let after = (handle_kickoff w.distance w.live w.check job (record db { effects = [] })).1 in
    elim (deferred job.delivery_id after.effects) [
      | none ↦ after
      | some attempt ↦ kickoffs ws (record job { preflight_attempt = some attempt }) after
    ]

-- A kickoff leaves a delivery alone that is not scheduled any more.
left_alone :
    (w : Round) (job : KickoffJob) (db : Db) (e : Delivery)
    → find_delivery job.delivery_id db ≡ some e
    → status_eq e.status scheduled ≡ false
    → (handle_kickoff w.distance w.live w.check job db).1 ≡ db
unfolding handle_kickoff kickoff_found
left_alone w job db e found k = rw (found, k) refl

next-HasLeft :
    (ws : List Round) (job : KickoffJob) (after : Db) (o : Option ℕ)
    → HasLeft job.delivery_id after
    → ((n : ℕ)
        → HasLeft job.delivery_id (kickoffs ws (record job { preflight_attempt = some n }) after))
    → HasLeft job.delivery_id (elim o [
      | none ↦ after
      | some attempt ↦ kickoffs ws (record job { preflight_attempt = some attempt }) after
    ])
next-HasLeft ws job after none gone rest = gone
next-HasLeft ws job after (some n) gone rest = rest n

-- What runs for a delivery that has left SCHEDULED does not bring it back.
kickoffs-HasLeft :
    (ws : List Round) (job : KickoffJob) (db : Db)
    → HasLeft job.delivery_id db
    → HasLeft job.delivery_id (kickoffs ws job db)
unfolding kickoffs
kickoffs-HasLeft [] job db h = h
kickoffs-HasLeft (w ∷ ws) job db (e, found, k) =
    next-HasLeft ws job after (deferred job.delivery_id after.effects) still
      (λ n. kickoffs-HasLeft ws (record job { preflight_attempt = some n }) after still)
  where
    after : Db
    after = (handle_kickoff w.distance w.live w.check job (record db { effects = [] })).1

    still : HasLeft job.delivery_id after
    still = rw (left_alone w job (record db { effects = [] }) e found k) (e, found, k)

-- However the checks and the dispatches turn out, a scheduled delivery, in a table with one row to an
-- id, has left SCHEDULED once its attempts are used up, where each kickoff after the first is the job
-- that the one before it put into the queue: four kickoffs are enough for a job without an attempt.
pub kickoffs_settle :
    (ws : List Round) (job : KickoffJob) (db : Db) (d : Delivery)
    → IsKeyed delivery_key db.deliveries
    → find_delivery job.delivery_id db ≡ some d
    → status_eq d.status scheduled ≡ true
    → 1 ≤ length ws
    → preflight_max_attempts ≤ attempt_of job + length ws
    → HasLeft job.delivery_id (kickoffs ws job db)
unfolding kickoffs
kickoffs_settle [] job db d keyed found is_due h k = absurd (omega (arith, h))
kickoffs_settle (w ∷ ws) job db d keyed found is_due h k =
    elim (kickoff-Settles w.distance w.live w.check job (record db { effects = [] }) d keyed found
      is_due) [
        | inl gone ↦
            next-HasLeft ws job after (deferred job.delivery_id after.effects) gone
              (λ n. kickoffs-HasLeft ws (record job { preflight_attempt = some n }) after gone)
        | inr (left, same, queued) ↦
            rw (kickoffs, queued)
              (kickoffs_settle ws (record job { preflight_attempt = some (attempt_of job + 1) })
                after d (rw same keyed) (ap (find delivery_key job.delivery_id) same ∙ found) is_due
                (omega arith) (omega arith))
      ]
  where
    after : Db
    after = (handle_kickoff w.distance w.live w.check job (record db { effects = [] })).1
