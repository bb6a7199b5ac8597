-- ===== src/Store/Invariants.antt =====
-- Invariants of the database across service calls, and the rules for their parts.
use drovery_backend.Base.{if◌then◌else◌, Bool, true, false, ◌≡◌, refl}
use drovery_backend.Store.Rows.{Db}
use drovery_backend.Store.Errors.{AppError, unique_violation}
use drovery_backend.Store.Monad.{
  Result, ok, err, Action, ⊤, throw_if, when, transaction, keep_or_roll_back,
  ignore_unique_violation, best_effort, continue_with, swallow_unique_violation, ◌>>=◌,
}

-- `P` holds of the database that a call which returned has left.
abbrev pub AfterOk : {A : Type 0} → (Db → Type 0) → Result A × Db → Type 0
AfterOk P (ok _, db) = P db
AfterOk P (err _, db) = Unit

-- A call that returns keeps `P`; one that throws is for its transaction to roll back.
abbrev pub KeepsOk : {A : Type 0} → (Db → Type 0) → Action A → Type 0
KeepsOk P m = (db : Db) → P db → AfterOk P (m db)

-- A call keeps `P`, whether it returns or throws.
abbrev pub Keeps : {A : Type 0} → (Db → Type 0) → Action A → Type 0
Keeps P m = (db : Db) → P db → P (m db).1

module _ (P : Db → Type 0) where
  module _ {A : Type 0} where
    pub AfterOk-intro : (o : Result A × Db) → ((a : A) → o.0 ≡ ok a → P o.1) → AfterOk P o
    AfterOk-intro (ok a, db) h = h a refl
    AfterOk-intro (err e, db) h = tt

    pub AfterOk-elim : (o : Result A × Db) {a : A} → AfterOk P o → o.0 ≡ ok a → P o.1
    AfterOk-elim (ok a, db) h e = h
    AfterOk-elim (err x, db) h e = cc

    pub Keeps-ok : (m : Action A) → Keeps P m → KeepsOk P m
    Keeps-ok m h db p = AfterOk-intro (m db) (λ _ _. h db p)

    roll_back :
        (before : Db) (o : Result A × Db)
        → P before
        → AfterOk P o
        → P (keep_or_roll_back before o).1
    roll_back before (ok a, db) h after = after
    roll_back before (err e, db) h after = h

    -- A transaction keeps what its body keeps when it returns.
    pub transaction-Keeps : (m : Action A) → KeepsOk P m → Keeps P (transaction m)
    transaction-Keeps m hm db h = roll_back db (m db) h (hm db h)

  module _ {A B : Type 0} where
    bind_ok :
        (o : Result A × Db) (k : A → Action B)
        → AfterOk P o
        → ((a : A) → KeepsOk P (k a))
        → AfterOk P (continue_with k o)
    bind_ok (ok a, db) k h hk = hk a db h
    bind_ok (err e, db) k h hk = tt

    pub >>=-KeepsOk :
        (m : Action A) (k : A → Action B)
        → KeepsOk P m
        → ((a : A) → KeepsOk P (k a))
        → KeepsOk P (m >>= k)
    >>=-KeepsOk m k hm hk db h = bind_ok (m db) k (hm db h) hk

    bind_any :
        (o : Result A × Db) (k : A → Action B)
        → P o.1
        → ((a : A) → Keeps P (k a))
        → P (continue_with k o).1
    bind_any (ok a, db) k h hk = hk a db h
    bind_any (err e, db) k h hk = h

    pub >>=-Keeps :
        (m : Action A) (k : A → Action B)
        → Keeps P m
        → ((a : A) → Keeps P (k a))
        → Keeps P (m >>= k)
    >>=-Keeps m k hm hk db h = bind_any (m db) k (hm db h) hk

  module _ {A : Type 0} where
    pub ite_KeepsOk :
        (b : Bool) (m k : Action A) → KeepsOk P m → KeepsOk P k → KeepsOk P (if b then m else k)
    ite_KeepsOk true m k hm hk db h = hm db h
    ite_KeepsOk false m k hm hk db h = hk db h

    pub ite_Keeps :
        (b : Bool) (m k : Action A) → Keeps P m → Keeps P k → Keeps P (if b then m else k)
    ite_Keeps true m k hm hk db h = hm db h
    ite_Keeps false m k hm hk db h = hk db h

  pub throw_if-Keeps : (b : Bool) (e : AppError) → Keeps P (throw_if b e)
  throw_if-Keeps true e db h = h
  throw_if-Keeps false e db h = h

  pub when-KeepsOk : (b : Bool) (m : Action ⊤) → KeepsOk P m → KeepsOk P (when b m)
  when-KeepsOk true m hm db h = hm db h
  when-KeepsOk false m hm db h = h

  pub when-Keeps : (b : Bool) (m : Action ⊤) → Keeps P m → Keeps P (when b m)
  when-Keeps true m hm db h = hm db h
  when-Keeps false m hm db h = h

  swallow_any : (o : Result ⊤ × Db) → P o.1 → P (swallow_unique_violation o).1
  swallow_any (ok a, db) h = h
  swallow_any (err (unique_violation c), db) h = h
  swallow_any (err _, db) h = h

  pub ignore_unique_violation-Keeps :
      (m : Action ⊤) → Keeps P m → Keeps P (ignore_unique_violation m)
  ignore_unique_violation-Keeps m hm db h = swallow_any (m db) (hm db h)

  pub best_effort-Keeps : (m : Action ⊤) → Keeps P m → Keeps P (best_effort m)
  best_effort-Keeps m hm = hm
