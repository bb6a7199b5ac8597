-- ===== src/Examples/Money.antt =====
-- The wallet, the prices and the payments: the theorems at the sample database.
use drovery_backend.Base.{◌+◌, some, ◌≡◌, refl, arith}
use drovery_backend.Store.{ok, debit_of}
use drovery_backend.Wallet.{
  debit_within_tx, refund_charge_to_wallet, maybe_grant_referral_reward_within_tx,
  referee_reward_amount, referrer_reward_amount,
}
use drovery_backend.Wallet.Reconcile.{IsReconciled, balance, debit_covered}
use drovery_backend.Wallet.Refund.{refund_charge_uncaptured}
use drovery_backend.Wallet.Reward.{reward_paid}
use drovery_backend.Examples.Data.{sample, friend}

sample-IsReconciled : IsReconciled sample
sample-IsReconciled = record { keyed = ground arith; accounted = λ uid. ground arith }

debit_covered_example :
    balance 1 (debit_within_tx 1 200 1 (some (debit_of 1)) sample).1 + 200 ≡ balance 1 sample
unfolding debit_within_tx
debit_covered_example = debit_covered 1 200 1 (some (debit_of 1)) sample sample-IsReconciled refl

refund_charge_uncaptured_example : (refund_charge_to_wallet 2 sample).1 ≡ sample
refund_charge_uncaptured_example = refund_charge_uncaptured 2 sample refl

reward_paid_example :
    ((maybe_grant_referral_reward_within_tx 1 sample).0 ≡ ok tt)
    × (balance 1 (maybe_grant_referral_reward_within_tx 1 sample).1
        ≡ balance 1 sample + referee_reward_amount)
    × (balance 2 (maybe_grant_referral_reward_within_tx 1 sample).1
        ≡ balance 2 sample + referrer_reward_amount)
reward_paid_example =
    reward_paid friend 1 sample (ground arith) refl refl (ground arith) refl refl refl refl
