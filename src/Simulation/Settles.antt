-- ===== src/Simulation/Settles.antt =====
-- What one kickoff of src/deliveries/simulation/simulation.processor.ts does to a scheduled delivery:
-- it launches it, gives it up, or puts it off.
use drovery_backend.Base.{
  ℕ, ◌+◌, ◌≤◌, Bool, true, false, not, Option, none, some, [], ◌∷◌, ◌≡◌, ◌⊎◌, inl, inr, refl, ◌&&◌,
  Bool-cases, get_or, if◌then◌else◌, ap, ◌∙◌, arith, Option-cases,
}
use drovery_backend.Base.Table.{at, update_many, find, IsKeyed, find-update_at}
use drovery_backend.Store.{
  Db, Delivery, delivery_key, DeliveryStatus, delivery_failed, continue_with, scheduled, status_eq,
  FailureReason, other, AppError, Result, Action, ok, err, ⊤, pure, when,
}
use drovery_backend.Serviceability.{ServiceabilityResult}
use drovery_backend.Dispatch.{
  Distance, MissionRoute, complete_route, DispatchDecision, dispatch, release,
  is_permanent_dispatch_refusal, return_to_fleet,
}
use drovery_backend.Dispatch.Effects.{dispatch-Keeps}
use drovery_backend.Deliveries.{
  find_delivery, update_delivery, status_in, set_failed, fail_exceptional,
}
use drovery_backend.Deliveries.Failed.{fail_hits, Deliveries-IsSettling}
use drovery_backend.Store.Invariants.{when-Keeps}
use drovery_backend.Simulation.Preflight.{
  classify_preflight, hold_exhausted, preflight_max_attempts,
}
use drovery_backend.Simulation.Kickoff.{
  KickoffJob, attempt_of, route_of, deferred, give_up, is_launch, is_hold, act_on, preflight,
  handle_dispatch_refusal, launched, commit_launch, after_dispatch, launch_request, launch_now,
  kickoff_scheduled, kickoff_found, handle_kickoff,
}

-- The delivery is there, and no longer SCHEDULED.
abbrev pub HasLeft : ℕ → Db → Type 0
HasLeft id db =
    (e : Delivery) × (find_delivery id db ≡ some e) × (status_eq e.status scheduled ≡ false)

-- It has left SCHEDULED, or there is an attempt left, the deliveries are as they were, and the queue
-- has a kickoff with the next attempt.
abbrev pub Settles : KickoffJob → Db → Db → Type 0
Settles job db db' =
    HasLeft job.delivery_id db'
    ⊎ ((attempt_of job + 2 ≤ preflight_max_attempts)
        × (db'.deliveries ≡ db.deliveries)
        × (deferred job.delivery_id db'.effects ≡ some (attempt_of job + 1)))

-- `m >> pure x` leaves the state of `m`.
discard-state : {A B : Type 0} (b : B) (o : Result A × Db) → (continue_with (λ _. pure b) o).1 ≡ o.1
discard-state b (ok a, db) = refl
discard-state b (err e, db) = refl

-- A launch that is not cleared leaves the state of what refused it.
refused-state :
    {A : Type 0} (m : Action ⊤) (o : Result A × Db)
    → (continue_with
        (λ cleared. if cleared then m else pure tt)
        (continue_with (λ _. pure false) o)).1
      ≡ o.1
refused-state m (ok a, db) = refl
refused-state m (err e, db) = refl

launched_status :
    (decision : DispatchDecision) (d : Delivery)
    → (launched decision d).status ≡ DeliveryStatus.pending
launched_status decision d = elim (Option-cases decision.drone_id) [
  | inl n ↦ rw n refl
  | inr (i, n) ↦ rw n refl
]

launched_id : (decision : DispatchDecision) (d : Delivery) → (launched decision d).id ≡ d.id
launched_id decision d = elim (Option-cases decision.drone_id) [
  | inl n ↦ rw n refl
  | inr (i, n) ↦ rw n refl
]

-- Whatever is enqueued and handed back, the launch writes the deliveries once.
commit-deliveries :
    (job : KickoffJob) (decision : DispatchDecision) (db : Db)
    → (commit_launch job decision db).1.deliveries
      ≡ update_many
          (at delivery_key job.delivery_id (status_in (scheduled ∷ [])))
          (launched decision)
          db.deliveries
unfolding commit_launch update_delivery
commit-deliveries job decision db = elim (Option-cases decision.drone_id) [
  | inl n ↦ rw n (kept _ _)
  | inr (i, n) ↦ rw n (kept _ _)
]
  where
    kept :
        (won : Bool) (x : Db)
        → (when won (release job.delivery_id return_to_fleet) x).1.deliveries ≡ x.deliveries
    kept won x =
        when-Keeps (λ y. y.deliveries ≡ x.deliveries) won _
          ((Deliveries-IsSettling x.deliveries).releases job.delivery_id return_to_fleet) x refl

module _ (job : KickoffJob) (db : Db) (d : Delivery) (keyed : IsKeyed delivery_key db.deliveries)
    (found : find_delivery job.delivery_id db ≡ some d)
    (is_due : status_eq d.status scheduled ≡ true) where
  give_up-HasLeft : (r : FailureReason) → HasLeft job.delivery_id (give_up job r db).1
  unfolding give_up
  give_up-HasLeft r = (
    set_failed delivery_failed r d,
    ap (find_delivery job.delivery_id)
          (discard-state tt (fail_exceptional job.delivery_id r (scheduled ∷ []) none db))
        ∙ fail_hits job.delivery_id db d keyed found r (scheduled ∷ []) (ground arith),
    refl,
  )

  refusal-Settles : (e : AppError) → Settles job db (handle_dispatch_refusal job e db).1
  unfolding handle_dispatch_refusal
  refusal-Settles e =
      elim (Bool-cases (
        not (is_permanent_dispatch_refusal e)
        && not (hold_exhausted (attempt_of job) preflight_max_attempts))) [
          | inl h ↦ rw h (inr (ground arith, refl, ground arith))
          | inr h ↦ rw h (inl (give_up-HasLeft other))
        ]

  commit-HasLeft :
      (decision : DispatchDecision) → HasLeft job.delivery_id (commit_launch job decision db).1
  commit-HasLeft decision = (
    launched decision d,
    ap (find delivery_key job.delivery_id) (commit-deliveries job decision db)
        ∙ rw
            (
              find-update_at delivery_key job.delivery_id job.delivery_id
                  (status_in (scheduled ∷ [])) (launched decision) db.deliveries
                  (launched_id decision),
              found,
            )
            (ground arith),
    rw (launched_status decision d) refl,
  )

module _ (distance : Distance) (live : Bool) (check : MissionRoute → ServiceabilityResult)
    (job : KickoffJob) (db : Db) (d : Delivery) (keyed : IsKeyed delivery_key db.deliveries)
    (found : find_delivery job.delivery_id db ≡ some d)
    (is_due : status_eq d.status scheduled ≡ true) where
  after_dispatch-Settles :
      (o : Result DispatchDecision × Db)
      → o.1.deliveries ≡ db.deliveries
      → Settles job db (after_dispatch job o).1
  after_dispatch-Settles (ok decision, x) h = inl (
      commit-HasLeft job x d (rw h keyed) (ap (find delivery_key job.delivery_id) h ∙ found) is_due
        decision)
  after_dispatch-Settles (err e, x) h =
      elim (refusal-Settles job x d (rw h keyed) (ap (find delivery_key job.delivery_id) h ∙ found)
        is_due e) [ inl gone ↦ inl gone | inr (left, same, queued) ↦ inr (left, same ∙ h, queued) ]

  launching-Settles : Settles job db (launch_now distance live check job d db).1
  unfolding launch_now
  launching-Settles = after_dispatch-Settles (dispatch distance live (launch_request job d) db) (
      dispatch-Keeps (λ x. x.deliveries ≡ db.deliveries) (λ x ds h. h) distance live
        (launch_request job d) db refl)

  cleared-Settles :
      (o : Option MissionRoute)
      → Settles job db
          (continue_with
            (λ cleared. if cleared then launch_now distance live check job d else pure tt)
            (preflight check job o db)).1
  unfolding preflight act_on
  cleared-Settles none = launching-Settles
  cleared-Settles (some r) =
      let v = classify_preflight (check r) in
      elim (Bool-cases (is_launch v.action)) [
        | inl e ↦ rw e launching-Settles
        | inr e ↦
            elim (Bool-cases
              (is_hold v.action && not (hold_exhausted (attempt_of job) preflight_max_attempts))) [
                | inl k ↦ rw (e, k) (inr (ground arith, refl, ground arith))
                | inr k ↦
                    rw (e, k)
                      (inl (
                        refused (get_or v.reason other)
                          (give_up-HasLeft job db d keyed found is_due _)))
              ]
      ]
    where
      refused :
          (r : FailureReason)
          → HasLeft job.delivery_id (give_up job r db).1
          → HasLeft job.delivery_id
              (continue_with
                (λ cleared. if cleared then launch_now distance live check job d else pure tt)
                (continue_with (λ _. pure false) (give_up job r db))).1
      refused r (e, q, k) = (
        e,
        ap (find_delivery job.delivery_id)
              (refused-state (launch_now distance live check job d) (give_up job r db))
            ∙ q,
        k,
      )

  -- A kickoff of a scheduled delivery, whatever is found about the weather, the airspace and the
  -- fleet, takes it out of SCHEDULED, or leaves the deliveries and queues the next attempt.
  pub kickoff-Settles : Settles job db (handle_kickoff distance live check job db).1
  unfolding handle_kickoff kickoff_found kickoff_scheduled
  kickoff-Settles = rw (found, is_due) (cleared-Settles (complete_route (route_of d)))
