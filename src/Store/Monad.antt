-- ===== src/Store/Monad.antt =====
-- A service call: it reads and writes the database and returns or throws. What was written before
-- a throw stays written, unless the call runs inside `transaction`.
use drovery_backend.Base.{Bool, true, false, Option, none, some, ◌∷◌}
use drovery_backend.Store.Rows.{Db, Effect}
use drovery_backend.Store.Errors.{AppError}

pub data Result (A : Type 0) : Type 0 where
  ok : A → Result A
  err : AppError → Result A

abbrev pub Action : Type 0 → Type 0
Action A = Db → Result A × Db

abbrev pub ⊤ : Type 0
⊤ = Unit

module _ {A : Type 0} where
  abbrev pub pure : A → Action A
  pure a db = (ok a, db)

  abbrev pub throw : AppError → Action A
  throw e db = (err e, db)

  abbrev pub gets : (Db → A) → Action A
  gets f db = (ok (f db), db)

  -- `if (!o) throw e`
  abbrev pub or_throw : Option A → AppError → Action A
  or_throw none e = throw e
  or_throw (some a) _ = pure a

  -- The statements of an interactive transaction: all of them are kept, or none.
  abbrev pub keep_or_roll_back : Db → Result A × Db → Result A × Db
  keep_or_roll_back before (ok a, after) = (ok a, after)
  keep_or_roll_back before (err e, after) = (err e, before)

  abbrev pub transaction : Action A → Action A
  transaction m db = keep_or_roll_back db (m db)

-- What follows a call: the rest of the block, or the error.
abbrev pub continue_with : {A B : Type 0} → (A → Action B) → Result A × Db → Result B × Db
continue_with f (ok a, db) = f a db
continue_with f (err e, db) = (err e, db)

infixl 5 ◌>>=◌ ◌>>◌
abbrev pub ◌>>=◌ : {A B : Type 0} → Action A → (A → Action B) → Action B
◌>>=◌ m f db = continue_with f (m db)

abbrev pub ◌>>◌ : {A B : Type 0} → Action A → Action B → Action B
m >> k = m >>= λ _. k

abbrev pub modify : (Db → Db) → Action ⊤
modify f db = (ok tt, f db)

abbrev pub throw_if : Bool → AppError → Action ⊤
throw_if true e db = (err e, db)
throw_if false e db = (ok tt, db)

-- `if (c) await m`
abbrev pub when : Bool → Action ⊤ → Action ⊤
when true m = m
when false m = pure tt

-- `m.catch(log)`: a best-effort step.
abbrev pub best_effort : {A : Type 0} → Action A → Action ⊤
best_effort m db = (ok tt, (m db).1)

abbrev pub emit : Effect → Action ⊤
emit e = modify (λ db. record db { effects = e ∷ db.effects })

-- `catch (e) { if (isUniqueViolation(e)) return; throw e; }`
abbrev pub swallow_unique_violation : Result ⊤ × Db → Result ⊤ × Db
swallow_unique_violation (ok a, db) = (ok a, db)
swallow_unique_violation (err (AppError.unique_violation c), db) = (ok tt, db)
swallow_unique_violation (err e, db) = (err e, db)

abbrev pub ignore_unique_violation : Action ⊤ → Action ⊤
ignore_unique_violation m db = swallow_unique_violation (m db)
