-- ===== src/Dispatch/Effects.antt =====
-- What the dispatch of src/dispatch/dispatch.service.ts leaves of the database as it was.
use mathlib.Core.Path.{subst}
use drovery_backend.Base.{
  ℕ, ◌≡◌, refl, sym, Bool, not, ◌||◌, Option, none, some, List, inl, inr, Bool-cases,
}
use drovery_backend.Store.{Db, Drone, Result, ok, err, continue_with, pure, live}
use drovery_backend.Store.Invariants.{Keeps, ite_Keeps}
use drovery_backend.Dispatch.Feasibility.{Distance, MissionRoute}
use drovery_backend.Dispatch.Service.{
  DispatchRequest, DispatchDecision, select_and_claim, dispatch_live, dispatch, complete_route,
}
use drovery_backend.Dispatch.Selection.{
  Selected, select_and_claim-Selected, after_selection, simulated_decision,
}

-- A dispatch changes the fleet, and nothing else.
module _ (P : Db → Type 0)
    (fleet : (db : Db) (drones : List Drone) → P db → P (record db { drones = drones })) where
  Selected-Keeps :
      (did payload : ℕ) (db : Db) (o : Result ℕ × Db) → P db → Selected did payload db o → P o.1
  Selected-Keeps did payload db (err e, db') h s = rw s.1 h
  Selected-Keeps did payload db (ok id, db') h (inl (d, e, i, same)) = rw same h
  Selected-Keeps did payload db (ok id, db') h (inr (free, one, after)) = rw after (fleet db _ h)

  dispatch_live-Keeps :
      (distance : Distance) (did payload : ℕ) (o : Option MissionRoute)
      → Keeps P (dispatch_live distance did payload o)
  unfolding dispatch_live
  dispatch_live-Keeps distance did payload none db h = h
  dispatch_live-Keeps distance did payload (some route) db h =
      let o = select_and_claim distance did route payload db in
      subst P (sym (after_selection o)) (
        Selected-Keeps did payload db o h (select_and_claim-Selected distance did route payload db))

  pub dispatch-Keeps :
      (distance : Distance) (enabled : Bool) (req : DispatchRequest)
      → Keeps P (dispatch distance enabled req)
  unfolding dispatch
  dispatch-Keeps distance enabled req =
      ite_Keeps P (not enabled || req.is_scheduled) (pure simulated_decision)
        (dispatch_live distance req.delivery_id req.payload (complete_route req.route)) (λ db h. h)
        (dispatch_live-Keeps distance req.delivery_id req.payload (complete_route req.route))

-- A dispatch that throws changed nothing; one that assigned no aircraft changed nothing.
abbrev pub Decided : Db → Result DispatchDecision × Db → Type 0
Decided db (ok d, db') = d.drone_id ≡ none → db' ≡ db
Decided db (err e, db') = db' ≡ db

live-Decided :
    (did payload : ℕ) (db : Db) (o : Result ℕ × Db)
    → Selected did payload db o
    → Decided db (
        continue_with {B = DispatchDecision}
          (λ id. pure (record { tracking_source = live; drone_id = some id }))
          o)
live-Decided did payload db (ok id, db') s = λ e. cc
live-Decided did payload db (err e, db') s = s.1

dispatch_live-Decided :
    (distance : Distance) (did payload : ℕ) (o : Option MissionRoute) (db : Db)
    → Decided db (dispatch_live distance did payload o db)
unfolding dispatch_live
dispatch_live-Decided distance did payload none db = refl
dispatch_live-Decided distance did payload (some route) db =
    live-Decided did payload db (select_and_claim distance did route payload db)
      (select_and_claim-Selected distance did route payload db)

pub dispatch-Decided :
    (distance : Distance) (enabled : Bool) (req : DispatchRequest) (db : Db)
    → Decided db (dispatch distance enabled req db)
unfolding dispatch
dispatch-Decided distance enabled req db = elim (Bool-cases (not enabled || req.is_scheduled)) [
  | inl e ↦ rw e (λ _. refl)
  | inr e ↦
      rw e
        (dispatch_live-Decided distance req.delivery_id req.payload (complete_route req.route) db)
]
