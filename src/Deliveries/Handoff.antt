-- ===== src/Deliveries/Handoff.antt =====
-- `confirmHandoff` of src/deliveries/deliveries.service.ts. The digest of a code is a parameter.
use drovery_backend.Base.{
  ℕ, Bool, false, not, Option, none, some, [], ◌∷◌, leb, ltb, ◌==◌, ◌||◌, if◌then◌else◌, ◌+◌,
}
use drovery_backend.Base.Text.{Text}
use drovery_backend.Store.{
  Delivery, status_eq, delivered, awaiting_handoff, recipient_unavailable, failable_statuses,
  auto_proof, Action, throw, gets, throw_if, best_effort, emit, ◌>>=◌, ◌>>◌,
  handoff_already_completed, handoff_not_awaiting, handoff_locked, handoff_invalid_code,
}
use drovery_backend.Dispatch.{return_to_fleet, release}
use drovery_backend.Deliveries.Transition.{status_in, update_delivery, find_delivery, owned_by}
use drovery_backend.Deliveries.Exceptions.{fail_exceptional}

abbrev pub max_handoff_attempts : ℕ
max_handoff_attempts = 5

-- `handoffCodeMatches`
abbrev pub handoff_code_matches : (Text → ℕ) → Text → Option ℕ → Bool
handoff_code_matches digest code none = false
handoff_code_matches digest code (some stored) = digest code == stored

abbrev pub has_attempts_left : Delivery → Bool
has_attempts_left d = ltb d.handoff_attempts max_handoff_attempts

abbrev pub count_attempt : Delivery → Delivery
count_attempt d = record d { handoff_attempts = d.handoff_attempts + 1 }

abbrev pub confirm_at : ℕ → Delivery → Delivery
confirm_at now d = record d { status = delivered; handoff_confirmed_at = some now }

-- `after?.handoffAttempts ?? MAX_HANDOFF_ATTEMPTS`
abbrev pub attempts_of : Option Delivery → ℕ
attempts_of none = max_handoff_attempts
attempts_of (some d) = d.handoff_attempts

-- Fail the delivery as the recipient's fault, and report the lock.
unfoldable pub lock_handoff : ℕ → Action Delivery
lock_handoff delivery_id =
    fail_exceptional delivery_id recipient_unavailable failable_statuses none
    >> throw handoff_locked

unfoldable pub reject_code : ℕ → Action Delivery
unfolding lock_handoff
reject_code delivery_id = do
  counted ← update_delivery delivery_id has_attempts_left count_attempt
  after ← gets (find_delivery delivery_id)
  let locked = lock_handoff delivery_id
  if counted == 0 || leb max_handoff_attempts (attempts_of after)
      then locked
      else throw handoff_invalid_code

unfoldable pub accept_code : ℕ → ℕ → Action Delivery
accept_code user_id delivery_id = do
  now ← gets (λ db. db.now)
  won ← update_delivery delivery_id (status_in (awaiting_handoff ∷ [])) (confirm_at now)
  throw_if (won == 0) handoff_already_completed
  release delivery_id return_to_fleet
  best_effort (emit (auto_proof delivery_id))
  after ← gets (find_delivery delivery_id)
  owned_by user_id after

unfoldable pub verify_code : (Text → ℕ) → ℕ → ℕ → Text → Delivery → Action Delivery
unfolding reject_code accept_code
verify_code digest user_id delivery_id code d =
    if leb max_handoff_attempts d.handoff_attempts
    then lock_handoff delivery_id
    else if handoff_code_matches digest code d.handoff_code_hash
    then accept_code user_id delivery_id
    else reject_code delivery_id

unfoldable pub confirm_handoff : (Text → ℕ) → ℕ → ℕ → Text → Action Delivery
unfolding verify_code
confirm_handoff digest user_id delivery_id code = do
  found ← gets (find_delivery delivery_id)
  d ← owned_by user_id found
  throw_if (status_eq d.status delivered) handoff_already_completed
  throw_if (not (status_eq d.status awaiting_handoff)) handoff_not_awaiting
  verify_code digest user_id delivery_id code d
