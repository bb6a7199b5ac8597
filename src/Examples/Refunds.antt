-- ===== src/Examples/Refunds.antt =====
-- The sweep of orphaned reservations: the theorems at a booking that crashed after it took 3.00 of
-- the credits, and at a delivery that exists.
use drovery_backend.Base.{some, [], ◌∷◌, ◌≡◌, refl, arith}
use drovery_backend.Store.{Db, debit_of, ok}
use drovery_backend.Wallet.{debit_within_tx}
use drovery_backend.Wallet.Reconcile.{IsReconciled, balance}
use drovery_backend.Orphans.{reap_orphans, sweep}
use drovery_backend.Orphans.Spares.{spends_of, redemptions_of, reaper_spares}
use drovery_backend.Orphans.Returns.{IsStranded}
use drovery_backend.Orphans.Sweeps.{HasNoOrphan, sweep_repays}
use drovery_backend.Examples.Data.{sample}

sample-IsStranded : IsStranded 4 sample
sample-IsStranded = record {
  unwritten = refl;
  unspent = refl;
  unrefunded = refl;
  unkeyed = ground arith;
  unredeemed = refl;
}

sample-IsReconciled : IsReconciled sample
sample-IsReconciled = record { keyed = ground arith; accounted = λ uid. ground arith }

-- Twelve minutes after the crash.
abbrev crash : Db
unfolding debit_within_tx
crash = record (debit_within_tx 1 300 4 (some (debit_of 4)) sample).1 { now = 800000 }

sample-HasNoOrphan : HasNoOrphan (record sample { now = 800000 })
sample-HasNoOrphan = record { debits = refl; redemptions = refl }

sweep_repays_example :
    ((sweep crash).0 ≡ ok tt)
    × (balance 1 (sweep crash).1 ≡ 500)
    × (sweep (sweep crash).1 ≡ (ok tt, (sweep crash).1))
unfolding debit_within_tx crash
sweep_repays_example =
    sweep_repays 1 300 4 800000 sample sample-IsReconciled sample-IsStranded refl (omega arith)
      (omega arith) sample-HasNoOrphan

reaper_spares_example :
    (spends_of 1 (reap_orphans (1 ∷ 9 ∷ []) sample).1 ≡ spends_of 1 sample)
    × (redemptions_of 1 (reap_orphans (1 ∷ 9 ∷ []) sample).1 ≡ redemptions_of 1 sample)
reaper_spares_example = reaper_spares (1 ∷ 9 ∷ []) 1 sample refl
