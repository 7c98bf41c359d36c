-- ===== src/Lending/Rewards.antt =====
-- contracts/lending-contract/src/lib.rs: reward farming: stakes of pool shares and what they earn.
pub mod Claims
use xource_x.Prelude.{
  ℕ, ◌+◌, ◌-◌, ◌*◌, ◌/◌, Bool, ◌&&◌, Option, none, some, ltb, ◌==◌, if◌then◌else◌,
}
use xource_x.Prelude.Words.{checked_add_u64, checked_mul_u64}
use xource_x.Prelude.Outcome.{◌>>=◌, ◌>>◌, pure, gets, modify, raise_if, or_raise, unwrap}
use xource_x.Prelude.Dict.{update, or_default}
use xource_x.AccessControl.{Address}
use xource_x.Lending.Types.{
  RewardPool, UserStake, invalid_amount, insufficient_shares, insufficient_stake,
  no_rewards_to_claim, invalid_reward_rate, staked, unstaked, rewards_claimed, reward_rate_updated,
}
use xource_x.Lending.Store.{
  Ledger, Action, emit, require_auth, require_initialized, require_admin, get_shares,
}
use xource_x.Lending.Admin.{new_reward_pool}

abbrev pub reward_precision : ℕ
reward_precision = 1_000_000_000

abbrev pub no_stake : UserStake
no_stake = record { amount = 0; reward_per_token_paid = 0; rewards = 0; stake_time = 0 }

-- The pool brought up to `now`; a sum or product past a u64 counts as 0.
unfoldable pub accrue_rewards : ℕ → RewardPool → RewardPool
accrue_rewards now pool =
    let elapsed = now - pool.last_update_time in
    let per_token = or_default 0 (checked_mul_u64 elapsed pool.reward_rate) in
    let new_rewards =
      or_default 0 (checked_mul_u64 per_token pool.total_staked) / reward_precision in
    if ltb 0 pool.total_staked && ltb 0 elapsed
    then record pool {
      last_update_time = now;
      reward_per_token_stored =
          or_default 0 (checked_add_u64 pool.reward_per_token_stored per_token);
      total_rewards_distributed =
          or_default 0 (checked_add_u64 pool.total_rewards_distributed new_rewards);
    }
    else record pool { last_update_time = now }

-- The rewards of a stake, with what it has earned since its mark.
unfoldable pub pending_rewards : UserStake → RewardPool → ℕ
pending_rewards stake pool =
    let earned = pool.reward_per_token_stored - stake.reward_per_token_paid in
    let pending = or_default 0 (checked_mul_u64 earned stake.amount) / reward_precision in
    if stake.amount == 0
    then stake.rewards
    else or_default 0 (checked_add_u64 stake.rewards pending)

module _ {W : Type 0} where
  abbrev get_reward_pool : Ledger → Address → Action W RewardPool
  get_reward_pool l asset = gets (λ s. or_default (new_reward_pool l) (s.reward_pools asset))

  abbrev set_reward_pool : Address → RewardPool → Action W (Unit {0})
  set_reward_pool asset pool =
      modify (λ s. record s { reward_pools = update asset (some pool) s.reward_pools })

  abbrev set_user_stake : Address → Address → UserStake → Action W (Unit {0})
  set_user_stake user asset stake = modify (λ s. record s {
    user_stakes = update user (update asset (some stake) (s.user_stakes user)) s.user_stakes;
  })

  unfoldable pub update_reward_pool : Ledger → Address → Action W (Unit {0})
  unfolding new_reward_pool
  update_reward_pool l asset = do
    pool ← get_reward_pool l asset
    set_reward_pool asset (accrue_rewards l.timestamp pool)

  unfoldable pub calculate_pending_rewards : Ledger → Address → Address → Action W ℕ
  unfolding update_reward_pool
  calculate_pending_rewards l user asset = do
    update_reward_pool l asset
    pool ← get_reward_pool l asset
    stake ← gets (λ s. or_default no_stake (s.user_stakes user asset))
    pure (pending_rewards stake pool)

  -- The stake's mark is the pool's as it was before the pool is brought up to date.
  unfoldable pub update_user_reward_debt : Ledger → Address → Address → Action W (Unit {0})
  unfolding calculate_pending_rewards
  update_user_reward_debt l user asset = do
    pool ← get_reward_pool l asset
    stake ← gets (λ s. or_default no_stake (s.user_stakes user asset))
    rewards ← calculate_pending_rewards l user asset
    set_user_stake user asset
        (record stake { reward_per_token_paid = pool.reward_per_token_stored; rewards = rewards })

  unfoldable pub stake_lp_tokens : Ledger → Address → Address → ℕ → Action W (Unit {0})
  unfolding require_initialized get_shares update_reward_pool
  stake_lp_tokens l user asset amount = do
    require_initialized
    require_auth l user
    raise_if (amount == 0) invalid_amount
    user_shares ← get_shares asset user
    raise_if (ltb user_shares amount) insufficient_shares
    update_reward_pool l asset
    found ← gets (λ s. s.reward_pools asset)
    pool ← unwrap found
    stake ← gets (λ s. or_default no_stake (s.user_stakes user asset))
    set_reward_pool asset
        (record pool { total_staked = or_default 0 (checked_add_u64 pool.total_staked amount) })
    set_user_stake user asset (record {
      amount = or_default 0 (checked_add_u64 stake.amount amount);
      reward_per_token_paid = pool.reward_per_token_stored;
      rewards = 0;
      stake_time = if stake.stake_time == 0 then l.timestamp else stake.stake_time;
    })
    emit (staked user asset amount l.timestamp)

  unfoldable pub unstake_lp_tokens : Ledger → Address → Address → ℕ → Action W (Unit {0})
  unfolding require_initialized update_user_reward_debt
  unstake_lp_tokens l user asset amount = do
    require_initialized
    require_auth l user
    raise_if (amount == 0) invalid_amount
    held ← gets (λ s. s.user_stakes user asset)
    before ← or_raise held insufficient_stake
    raise_if (ltb before.amount amount) insufficient_stake
    update_user_reward_debt l user asset
    current ← gets (λ s. s.user_stakes user asset)
    stake ← unwrap current
    let left = stake.amount - amount
    found ← gets (λ s. s.reward_pools asset)
    pool ← unwrap found
    set_reward_pool asset (record pool { total_staked = pool.total_staked - amount })
    set_user_stake user asset (record stake {
      amount = left;
      reward_per_token_paid = if left == 0 then 0 else stake.reward_per_token_paid;
      stake_time = if left == 0 then 0 else stake.stake_time;
    })
    emit (unstaked user asset amount stake.rewards l.timestamp)

  unfoldable pub claim_rewards : Ledger → Address → Address → Action W ℕ
  unfolding require_initialized update_user_reward_debt
  claim_rewards l user asset = do
    require_initialized
    require_auth l user
    update_user_reward_debt l user asset
    current ← gets (λ s. s.user_stakes user asset)
    stake ← or_raise current no_rewards_to_claim
    raise_if (stake.rewards == 0) no_rewards_to_claim
    set_user_stake user asset (record stake { rewards = 0 })
    emit (rewards_claimed user asset stake.rewards l.timestamp)
    pure stake.rewards

  unfoldable pub set_reward_rate : Ledger → Address → Address → ℕ → Action W (Unit {0})
  unfolding require_admin update_reward_pool
  set_reward_rate l admin asset new_rate = do
    require_admin l admin
    raise_if (new_rate == 0) invalid_reward_rate
    update_reward_pool l asset
    found ← gets (λ s. s.reward_pools asset)
    pool ← unwrap found
    set_reward_pool asset (record pool { reward_rate = new_rate })
    emit (reward_rate_updated asset pool.reward_rate new_rate l.timestamp)
