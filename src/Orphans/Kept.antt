-- ===== src/Orphans/Kept.antt =====
-- The sweep of src/deliveries/orphan-reaper keeps what the compensations keep.
use drovery_backend.Base.{ℕ, Bool, true, false, List, [], ◌∷◌, ◌++◌, not, ◌&&◌}
use drovery_backend.Store.{Db, pure, when, ◌>>◌}
use drovery_backend.Store.Invariants.{Keeps, >>=-Keeps, ite_Keeps, when-Keeps}
use drovery_backend.Wallet.{refund_for_delivery}
use drovery_backend.Promo.{release_for_delivery}
use drovery_backend.Deliveries.Stable.{IsSettling}
use drovery_backend.Orphans.Defs.{
  has_delivery, needs_refund, needs_release, compensate, reap_if_orphan, reap_orphans, sweep,
  distinct, orphaned_debits, orphaned_redemptions,
}

module _ (P : Db → Type 0) (id : ℕ) (spends : Keeps P (refund_for_delivery id))
    (promos : Keeps P (release_for_delivery id)) where
  pub compensate-Keeps : (refund release : Bool) → Keeps P (compensate id refund release)
  unfolding compensate
  compensate-Keeps refund release =
      ite_Keeps P (not refund && not release) (pure false)
        (when refund (refund_for_delivery id)
          >> when release (release_for_delivery id)
          >> pure true)
        (λ db h. h)
        (>>=-Keeps P
          (when refund (refund_for_delivery id) >> when release (release_for_delivery id))
          (λ _. pure true)
          (>>=-Keeps P (when refund (refund_for_delivery id))
            (λ _. when release (release_for_delivery id))
            (when-Keeps P refund (refund_for_delivery id) spends)
            (λ _. when-Keeps P release (release_for_delivery id) promos))
          (λ _ db h. h))

module _ (P : Db → Type 0) (s : IsSettling P) where
  reap_if_orphan-Keeps : (id : ℕ) → Keeps P (reap_if_orphan id)
  unfolding reap_if_orphan
  reap_if_orphan-Keeps id db =
      ite_Keeps P (has_delivery id db) (pure false)
        (compensate id (needs_refund id db) (needs_release id db)) (λ db h. h)
        (compensate-Keeps P id (s.spends id) (s.promos id) (needs_refund id db)
          (needs_release id db))
        db

  reap_orphans-Keeps : (ids : List ℕ) → Keeps P (reap_orphans ids)
  unfolding reap_orphans
  reap_orphans-Keeps [] db h = h
  reap_orphans-Keeps (id ∷ ids) db h = reap_orphans-Keeps ids _ (reap_if_orphan-Keeps id db h)

  pub sweep-Keeps : Keeps P sweep
  unfolding sweep
  sweep-Keeps db = reap_orphans-Keeps (distinct (orphaned_debits db ++ orphaned_redemptions db)) db
