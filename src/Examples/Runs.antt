-- ===== src/Examples/Runs.antt =====
-- Deliveries and aircraft: the theorems at the sample database.
use drovery_backend.Base.{true, false, none, some, [], ◌∷◌, ◌≡◌, refl, arith}
use drovery_backend.Base.Table.{find}
use drovery_backend.Store.{
  delivered, available, Delivery, delivery_key, status_eq, ok, err, mechanical,
  recipient_unavailable, failable_statuses, tracking_id_alloc_failed, cancel_race_bad_status,
  fail_bad_status, handoff_invalid_code,
}
use drovery_backend.Base.Int.{pos}
use drovery_backend.Wallet.{debit_within_tx}
use drovery_backend.Dispatch.{
  ground_for_inspection, assess_feasibility, release, claim_down, dispatch,
}
use drovery_backend.Dispatch.Selection.{Outcome, claim_down-Outcome}
use drovery_backend.Deliveries.{
  compensate_reservations, release_claimed_aircraft, fail_exceptional, begin_return_to_base,
  complete_return_to_base, admin_force_cancel, admin_fail, confirm_handoff, release_as,
  update_delivery,
}
use drovery_backend.Deliveries.Moves.{failable-AreLive}
use drovery_backend.Deliveries.Lifecycle.{Advanced}
use drovery_backend.Deliveries.Aircraft.{fail-fleet, fleet_after}
use drovery_backend.Deliveries.Settled.{settled_inert}
use drovery_backend.Deliveries.Attempts.{MayConfirm, confirm-MayConfirm, wrong_code_counted}
use drovery_backend.Booking.{create, Quote}
use drovery_backend.Booking.Strand.{HasNoAircraft, create_strands_nothing}
use drovery_backend.Lifetime.{Reaches, here, called, run, fail_call, confirm_call}
use drovery_backend.Lifetime.Safety.{IsSafe, Reaches-IsSafe, Reaches-Advanced, settled_for_good}
use drovery_backend.Examples.Data.{
  sample, flat_distance, digest, flying, at_door, done, booking, taken, flags, drone_with,
}

sample-IsSafe : IsSafe sample
sample-IsSafe = record {
  reconciled = record { keyed = ground arith; accounted = λ uid. ground arith };
  allocated = record { keyed = ground arith; exclusive = λ j. ground arith; flying = ground arith };
  tallied = record {
    keyed = ground arith;
    counted = λ k. ground arith;
    per_user = λ k u. ground arith;
    one_each = ground arith;
  };
  handoffs = ground arith;
  one_open = λ did. ground arith;
}

-- A failed flight, and then a wrong code at the door.
two_calls : Reaches flat_distance digest sample (
    run flat_distance digest
      (confirm_call 1 2 [])
      (run flat_distance digest (fail_call 1 mechanical failable_statuses failable-AreLive) sample))
two_calls =
    called (called here (fail_call 1 mechanical failable_statuses failable-AreLive))
      (confirm_call 1 2 [])

Reaches-IsSafe_example : IsSafe (
    run flat_distance digest
      (confirm_call 1 2 [])
      (run flat_distance digest (fail_call 1 mechanical failable_statuses failable-AreLive) sample))
Reaches-IsSafe_example = Reaches-IsSafe flat_distance digest two_calls sample-IsSafe

Reaches-Advanced_example :
    Advanced sample.deliveries
      (run flat_distance digest (confirm_call 1 2 []) (
        run flat_distance digest
          (fail_call 1 mechanical failable_statuses failable-AreLive)
          sample)).deliveries
Reaches-Advanced_example = Reaches-Advanced flat_distance digest two_calls

settled_for_good_example :
    (e : Delivery) × (find delivery_key 3
        (run flat_distance digest (confirm_call 1 2 []) (
          run flat_distance digest
            (fail_call 1 mechanical failable_statuses failable-AreLive)
            sample)).deliveries
      ≡ some e)
    × (status_eq e.status done.status ≡ true)
settled_for_good_example = settled_for_good flat_distance digest 3 done two_calls refl refl

create_strands_nothing_example : HasNoAircraft 4 (create flat_distance flags 1 booking taken).1
unfolding create dispatch assess_feasibility debit_within_tx compensate_reservations
    release_claimed_aircraft release
create_strands_nothing_example =
    create_strands_nothing flat_distance flags 1 booking taken tracking_id_alloc_failed refl refl

abbrev sample_quote : Quote
sample_quote = record {
  route = record {
    from_lat = some (pos 1);
    from_lng = some (pos 2);
    to_lat = some (pos 3);
    to_lng = some (pos 4);
  };
  original_total = 740;
  promo = none;
  discount = record { discount_amount = 0; final_total = 740 };
  charge = record { credits_to_apply = 500; final_total = 240 };
  starts_later = false;
  has_pending_referral = true;
}

fail-fleet_example :
    ((fail_exceptional 1 recipient_unavailable failable_statuses none sample).0 ≡ ok true)
    × ((fail_exceptional 1 recipient_unavailable failable_statuses none sample).1.drones
        ≡ fleet_after 1 (release_as ground_for_inspection) sample.drones)
fail-fleet_example =
    fail-fleet 1 sample flying (ground arith) refl recipient_unavailable failable_statuses refl

settled_inert_example :
    (fail_exceptional 3 mechanical failable_statuses none sample ≡ (ok false, sample))
    × (begin_return_to_base 3 mechanical sample ≡ (ok false, sample))
    × (complete_return_to_base 3 sample ≡ (ok false, sample))
    × (admin_force_cancel 3 none sample ≡ (err cancel_race_bad_status, sample))
    × (admin_fail 3 mechanical none sample ≡ (err fail_bad_status, sample))
settled_inert_example =
    settled_inert 3 sample done (ground arith) refl mechanical failable_statuses refl
      failable-AreLive

confirm-MayConfirm_example : MayConfirm digest 1 (5 ∷ 5 ∷ []) at_door
unfolding confirm_handoff release update_delivery
confirm-MayConfirm_example =
    confirm-MayConfirm digest 1 2 (5 ∷ 5 ∷ []) at_door
      (record at_door { status = delivered; handoff_confirmed_at = some 100000 }) sample refl refl

wrong_code_counted_example : confirm_handoff digest 1 2 (5 ∷ []) sample ≡ (
  err handoff_invalid_code,
  record sample { deliveries = flying ∷ record at_door { handoff_attempts = 1 } ∷ done ∷ [] },
)
wrong_code_counted_example =
    wrong_code_counted digest 1 2 (5 ∷ []) at_door sample (ground arith) refl refl refl
      (ground arith) refl

claim_down-Outcome_example :
    Outcome 4 300 sample (
      claim_down 4 300 (record { drone = drone_with 8 available none; mission = 3000 } ∷ []) sample)
claim_down-Outcome_example = claim_down-Outcome 4 300 _ sample
