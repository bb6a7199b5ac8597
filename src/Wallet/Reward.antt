-- ===== src/Wallet/Reward.antt =====
-- The referral reward of src/wallet/wallet.service.ts is paid in full, and once.
use drovery_backend.Base.{
  ℕ, ◌+◌, ◌≡◌, ◌≢◌, refl, true, false, ◌&&◌, Option, none, some, arith, ◌==◌, if◌then◌else◌,
}
use drovery_backend.Base.Table.{
  find, map_row, IsKeyed-update_many, count-pos, at, find-update_at, find-update_many, count-at,
  IsKeyed, update_many,
}
use drovery_backend.Store.{
  Db, User, referral_reward, referee_reward, user_key, TxnReason, IdempotencyKey, Referral,
  ReferralStatus, referee_key, referrer_of, referee_of, ok,
}
use drovery_backend.Wallet.{
  credit_within_tx, key_uses, nullable_key_eq, is_pending_referral, claim_and_grant, claim_referral,
  grant_rewards, referrer_reward_amount, referee_reward_amount, grant_found_referral,
  maybe_grant_referral_reward_within_tx, reward_referrer, reward_referee,
}
use drovery_backend.Wallet.Reconcile.{balance, raise_balance}

module _ (user_id amount : ℕ) (reason : TxnReason) (did rid : Option ℕ)
    (key : Option IdempotencyKey) where
  -- A credit to a known user under an unused key returns, and raises that balance alone.
  pub credit_ok :
      (db : Db) {u : User}
      → IsKeyed user_key db.users
      → find user_key user_id db.users ≡ some u
      → key_uses key db.wallet_transactions ≡ 0
      → (credit_within_tx user_id amount reason did rid key db).0 ≡ ok tt
  unfolding credit_within_tx
  credit_ok db k e unused = ground (arith, count-at user_key user_id (λ u. true) db.users k)

  pub credit_users :
      (db : Db)
      → (credit_within_tx user_id amount reason did rid key db).1.users
        ≡ update_many (at user_key user_id (λ u. true)) (raise_balance amount) db.users
  unfolding credit_within_tx
  credit_users db = ground arith

  pub credit_keys :
      (db : Db) (j : Option IdempotencyKey)
      → (credit_within_tx user_id amount reason did rid key db).0 ≡ ok tt
      → key_uses j (credit_within_tx user_id amount reason did rid key db).1.wallet_transactions
        ≡ (if nullable_key_eq j key then 1 else 0) + key_uses j db.wallet_transactions
  unfolding credit_within_tx
  credit_keys db j h = ground arith

  pub credit-IsKeyed :
      (db : Db)
      → IsKeyed user_key db.users
      → IsKeyed user_key (credit_within_tx user_id amount reason did rid key db).1.users
  credit-IsKeyed db k = rw (credit_users db) (
      IsKeyed-update_many user_key (at user_key user_id (λ u. true)) (raise_balance amount) db.users
        (λ u. refl) k)

  pub credit_find :
      (db : Db) (uid : ℕ)
      → find user_key uid (credit_within_tx user_id amount reason did rid key db).1.users ≡ (
          if uid == user_id
          then map_row (λ u. true) (raise_balance amount) (find user_key uid db.users)
          else find user_key uid db.users)
  credit_find db uid =
      rw (credit_users db) (
        find-update_at user_key uid user_id (λ u. true) (raise_balance amount) db.users (λ u. refl))

  pub credit_balance :
      (db : Db) (uid : ℕ) {u : User}
      → find user_key user_id db.users ≡ some u
      → balance uid (credit_within_tx user_id amount reason did rid key db).1
        ≡ balance uid db + (if uid == user_id then amount else 0)
  credit_balance db uid e = rw (credit_users db) (
      ground (
        arith,
        find-update_at user_key uid user_id (λ u. true) (raise_balance amount) db.users (λ u. refl),
      ))

abbrev rewarded_row : Db → Referral → Referral
rewarded_row db r = record r {
  status = ReferralStatus.rewarded;
  rewarded_at = some db.now;
  referrer_reward = some referrer_reward_amount;
  referee_reward = some referee_reward_amount;
}

-- The credits leave the referrals alone.
claim_and_grant-referrals :
    (ref : Referral) (uid : ℕ) (db : Db)
    → (claim_and_grant ref uid db).1.referrals
      ≡ update_many (λ r. r.id == ref.id && is_pending_referral r) (rewarded_row db) db.referrals
unfolding claim_and_grant credit_within_tx
claim_and_grant-referrals ref uid db = ground arith

-- After the claim the referee's referral is not pending.
claimed :
    (ref : Referral) (uid : ℕ) (db : Db)
    → find referee_key uid db.referrals ≡ some ref
    → (r : Referral) × (find referee_key uid (claim_and_grant ref uid db).1.referrals ≡ some r)
      × (is_pending_referral r ≡ false)
claimed ref uid db e =
    let looked_up =
      find-update_many referee_key uid (λ (r : Referral). r.id == ref.id && is_pending_referral r)
        (rewarded_row db) db.referrals (λ r. refl) in
    (
      (if is_pending_referral ref then rewarded_row db ref else ref),
      rw (claim_and_grant-referrals ref uid db) (ground (arith, looked_up)),
      ground arith,
    )

-- A referral that is not pending is not paid.
settled_noop :
    (r : Referral) (uid : ℕ) (db : Db)
    → is_pending_referral r ≡ false
    → (grant_found_referral (some r) uid db).1 ≡ db
unfolding grant_found_referral
settled_noop r uid db h = ground arith

-- The second call, on what the first has left.
grant_twice :
    (o : Option Referral) (uid : ℕ) (db : Db)
    → find referee_key uid db.referrals ≡ o
    → let db' = (grant_found_referral o uid db).1 in
      (grant_found_referral (find referee_key uid db'.referrals) uid db').1 ≡ db'
unfolding grant_found_referral
grant_twice none uid db e = ground arith
grant_twice (some ref) uid db e =
    let (r, found, settled) = claimed ref uid db e in
    ground (arith, settled_noop r uid (claim_and_grant ref uid db).1 settled)

-- A reward is paid once: a second call for the same referee changes nothing.
pub reward_once :
    (uid : ℕ) (db : Db)
    → (maybe_grant_referral_reward_within_tx uid (maybe_grant_referral_reward_within_tx uid db).1).1
      ≡ (maybe_grant_referral_reward_within_tx uid db).1
unfolding maybe_grant_referral_reward_within_tx
reward_once uid db = grant_twice (find referee_key uid db.referrals) uid db refl

module _ (ref : Referral) (uid : ℕ) (db : Db) (k : IsKeyed user_key db.users)
    (ne : ref.referrer_id ≢ uid)
    (fu : key_uses (some (referrer_of ref.id)) db.wallet_transactions ≡ 0)
    (fv : key_uses (some (referee_of ref.id)) db.wallet_transactions ≡ 0) where
  abbrev after_first : Db
  after_first = (reward_referrer ref db).1

  first_ok :
      {v : User}
      → find user_key ref.referrer_id db.users ≡ some v
      → (reward_referrer ref db).0 ≡ ok tt
  unfolding reward_referrer
  first_ok ev = credit_ok _ _ _ _ _ _ db k ev fu

  second_found :
      {u : User}
      → find user_key uid db.users ≡ some u
      → find user_key uid after_first.users ≡ some u
  unfolding reward_referrer
  second_found eu = ground (
    arith,
    credit_find ref.referrer_id referrer_reward_amount referral_reward none (some ref.id)
        (some (referrer_of ref.id)) db uid,
  )

  second_ok :
      {u v : User}
      → find user_key uid db.users ≡ some u
      → find user_key ref.referrer_id db.users ≡ some v
      → (reward_referee ref uid after_first).0 ≡ ok tt
  unfolding reward_referrer reward_referee
  second_ok eu ev =
      credit_ok _ _ _ _ _ _ after_first (credit-IsKeyed _ _ _ _ _ _ db k) (second_found eu) (
        ground (
          arith,
          credit_keys ref.referrer_id referrer_reward_amount referral_reward none (some ref.id)
              (some (referrer_of ref.id)) db (some (referee_of ref.id)) (first_ok ev),
        ))

  -- The balances after both credits.
  grant_rewards_balances :
      {u v : User}
      → find user_key uid db.users ≡ some u
      → find user_key ref.referrer_id db.users ≡ some v
      → let (r, db') = grant_rewards ref uid db in
        (r ≡ ok tt)
        × (balance uid db' ≡ balance uid db + referee_reward_amount)
        × (balance ref.referrer_id db' ≡ balance ref.referrer_id db + referrer_reward_amount)
  unfolding grant_rewards
  grant_rewards_balances eu ev = ground (
    arith,
    first_ok ev,
    second_ok eu ev,
    credit_balance ref.referrer_id referrer_reward_amount referral_reward none (some ref.id)
        (some (referrer_of ref.id)) db uid ev,
    credit_balance ref.referrer_id referrer_reward_amount referral_reward none (some ref.id)
        (some (referrer_of ref.id)) db ref.referrer_id ev,
    credit_balance uid referee_reward_amount referee_reward none (some ref.id)
        (some (referee_of ref.id)) after_first uid (second_found eu),
    credit_balance uid referee_reward_amount referee_reward none (some ref.id)
        (some (referee_of ref.id)) after_first ref.referrer_id (second_found eu),
  )

-- With a pending referral by another user, two known users and both keys unused, the reward
-- returns, and raises the referee's and the referrer's balance by the reward.
pub reward_paid :
    (ref : Referral) (uid : ℕ) (db : Db) {u v : User}
    → IsKeyed user_key db.users
    → find referee_key uid db.referrals ≡ some ref
    → is_pending_referral ref ≡ true
    → ref.referrer_id ≢ uid
    → find user_key uid db.users ≡ some u
    → find user_key ref.referrer_id db.users ≡ some v
    → key_uses (some (referrer_of ref.id)) db.wallet_transactions ≡ 0
    → key_uses (some (referee_of ref.id)) db.wallet_transactions ≡ 0
    → let (r, db') = maybe_grant_referral_reward_within_tx uid db in
      (r ≡ ok tt)
      × (balance uid db' ≡ balance uid db + referee_reward_amount)
      × (balance ref.referrer_id db' ≡ balance ref.referrer_id db + referrer_reward_amount)
unfolding maybe_grant_referral_reward_within_tx grant_found_referral claim_and_grant claim_referral
reward_paid ref uid db k e pending ne eu ev fu fv =
    let claimable = λ (r : Referral). r.id == ref.id && is_pending_referral r in
    let won = count-pos referee_key uid claimable db.referrals e (ground arith) in
    rw e (
      ground
        (arith, won, grant_rewards_balances ref uid (claim_referral ref db).1 k ne fu fv eu ev))
