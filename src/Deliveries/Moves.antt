-- ===== src/Deliveries/Moves.antt =====
-- The guarded changes of src/deliveries/deliveries.service.ts move a delivery on.
use drovery_backend.Base.{
  ℕ, Bool, true, false, List, [], ◌∷◌, ◌≡◌, refl, arith, filter, All, Bool-cases, inl, inr,
}
use drovery_backend.Store.{
  DeliveryStatus, FailureReason, includes, awaiting_handoff, canceled, returning, delivery_failed,
  returned_to_base, failable_statuses, cancelable_statuses, returnable_statuses, terminal_statuses,
}
use drovery_backend.Deliveries.Transition.{status_in, set_status, set_failed}
use drovery_backend.Deliveries.Cancel.{is_pre_launch}
use drovery_backend.Deliveries.Handoff.{has_attempts_left, count_attempt, confirm_at}
use drovery_backend.Deliveries.Stable.{may_become, IsTransition}

-- No terminal status is in the list.
abbrev pub AreLive : List DeliveryStatus → Type 0
AreLive = All (λ s. includes terminal_statuses s ≡ false)

live_ends :
    (a b : DeliveryStatus)
    → includes terminal_statuses a ≡ false
    → includes terminal_statuses b ≡ true
    → may_become a b ≡ true
live_ends a b h k = ground arith

pub member_live :
    (xs : List DeliveryStatus) (s : DeliveryStatus)
    → AreLive xs
    → includes xs s ≡ true
    → includes terminal_statuses s ≡ false
member_live [] s h e = cc
member_live (x ∷ xs) s h e = ground (arith, h.0, member_live xs s h.1)

pub filter_live :
    (p : DeliveryStatus → Bool) (xs : List DeliveryStatus) → AreLive xs → AreLive (filter p xs)
filter_live p [] h = tt
filter_live p (x ∷ xs) h = elim (Bool-cases (p x)) [
  | inl e ↦ rw e (h.0, filter_live p xs h.1)
  | inr e ↦ rw e (filter_live p xs h.1)
]

pub cancel_moves : IsTransition (status_in cancelable_statuses) (set_status canceled)
cancel_moves = record {
  same_id = λ d. refl;
  moves_on = λ d e. ground arith;
  sound_handoff = λ d e h. (h.0, λ q. ground arith);
}

pub force_cancel_moves : IsTransition is_pre_launch (set_status canceled)
force_cancel_moves = record {
  same_id = λ d. refl;
  moves_on = λ d e. ground arith;
  sound_handoff = λ d e h. (h.0, λ q. ground arith);
}

pub airborne_cancel_moves : IsTransition (status_in failable_statuses) (set_status canceled)
airborne_cancel_moves = record {
  same_id = λ d. refl;
  moves_on = λ d e. ground arith;
  sound_handoff = λ d e h. (h.0, λ q. ground arith);
}

pub return_moves :
    (r : FailureReason) → IsTransition (status_in returnable_statuses) (set_failed returning r)
return_moves r = record {
  same_id = λ d. refl;
  moves_on = λ d e. ground arith;
  sound_handoff = λ d e h. (h.0, λ q. ground arith);
}

pub landing_moves : IsTransition (status_in (returning ∷ [])) (set_status returned_to_base)
landing_moves = record {
  same_id = λ d. refl;
  moves_on = λ d e. ground arith;
  sound_handoff = λ d e h. (h.0, λ q. ground arith);
}

pub confirm_moves : (now : ℕ) → IsTransition (status_in (awaiting_handoff ∷ [])) (confirm_at now)
confirm_moves now = record {
  same_id = λ d. refl;
  moves_on = λ d e. ground arith;
  sound_handoff = λ d e h. (h.0, λ q. ground arith);
}

pub attempt_moves : IsTransition has_attempts_left count_attempt
attempt_moves = record {
  same_id = λ d. refl;
  moves_on = λ d e. ground arith;
  sound_handoff = λ d e h. (ground arith, h.1);
}

pub fail_moves :
    (xs : List DeliveryStatus) (r : FailureReason)
    → AreLive xs
    → IsTransition (status_in xs) (set_failed delivery_failed r)
fail_moves xs r h = record {
  same_id = λ d. refl;
  moves_on = λ d e. live_ends d.status delivery_failed (member_live xs d.status h e) refl;
  sound_handoff = λ d e h. (h.0, λ q. ground arith);
}

pub failable-AreLive : AreLive failable_statuses
failable-AreLive = (refl, (refl, (refl, (refl, (refl, tt)))))
