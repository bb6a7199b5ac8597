-- ===== src/Commands/Open.antt =====
-- The index of src/deliveries/commands/drone-command.service.ts that allows one open command a
-- delivery, on the rows of the table.
use drovery_backend.Base.{
  ℕ, ◌+◌, ◌≤◌, Bool, true, false, List, [], ◌∷◌, ◌≡◌, refl, ◌&&◌, ◌==◌, leb, arith, Bool-cases, inl,
  inr, if◌then◌else◌,
}
use drovery_backend.Base.Table.{at, count, update_many}
use drovery_backend.Store.{DroneCommand, command_key}
use drovery_backend.Commands.Defs.{is_open_command, set_claimed, append_command}

module _ {A : Type 0} where
  pub count-update_many-le :
      (q p : A → Bool) (f : A → A) (xs : List A)
      → ((x : A) → p x ≡ true → q (f x) ≡ true → q x ≡ true)
      → count q (update_many p f xs) ≤ count q xs
  count-update_many-le q p f [] h = ground arith
  count-update_many-le q p f (x ∷ xs) h = ground (arith, h x, count-update_many-le q p f xs h)

abbrev pub open_for : ℕ → DroneCommand → Bool
open_for did c = c.delivery_id == did && is_open_command c

-- A delivery has one open command at most.
abbrev pub OneOpen : List DroneCommand → Type 0
OneOpen cs = (did : ℕ) → count (open_for did) cs ≤ 1

-- A change that opens no command.
abbrev pub OpensNone : (DroneCommand → Bool) → (DroneCommand → DroneCommand) → Type 0
OpensNone guard change =
    (did : ℕ) (c : DroneCommand)
    → guard c ≡ true
    → open_for did (change c) ≡ true
    → open_for did c ≡ true

pub update-OneOpen :
    (guard : DroneCommand → Bool) (change : DroneCommand → DroneCommand) (cs : List DroneCommand)
    → OpensNone guard change
    → OneOpen cs
    → OneOpen (update_many guard change cs)
update-OneOpen guard change cs h p did =
    omega (arith, count-update_many-le (open_for did) guard change cs (h did), p did)

pub at-OpensNone :
    (id : ℕ) (guard : DroneCommand → Bool) (change : DroneCommand → DroneCommand)
    → OpensNone guard change
    → OpensNone (at command_key id guard) change
at-OpensNone id guard change h did c g o = h did c (ground arith) o

count-append :
    (q : DroneCommand → Bool) (xs : List DroneCommand) (c : DroneCommand)
    → count q (append_command xs c) ≡ count q xs + (if q c then 1 else 0)
count-append q [] c = ground arith
count-append q (x ∷ xs) c = ground (arith, count-append q xs c)

pub append-one :
    (c : DroneCommand) (cs : List DroneCommand) (did : ℕ)
    → leb 1 (count (open_for c.delivery_id) cs) ≡ false
    → count (open_for did) cs ≤ 1
    → count (open_for did) (append_command cs c) ≤ 1
append-one c cs did e h = elim (Bool-cases (c.delivery_id == did)) [
  | inl q ↦
      let same : did ≡ c.delivery_id = ground arith in
      rw same (ground (arith, count-append (open_for c.delivery_id) cs c))
  | inr q ↦
      let closed : open_for did c ≡ false = rw q refl in
      ground (arith, count-append (open_for did) cs c)
]

pub claimed_closed :
    (now did : ℕ) (b : Bool) (c : DroneCommand)
    → open_for did (set_claimed now b c) ≡ true
    → open_for did c ≡ true
claimed_closed now did true c o = ground (arith, o)
claimed_closed now did false c o = ground (arith, o)
