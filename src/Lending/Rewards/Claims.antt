-- ===== src/Lending/Rewards/Claims.antt =====
-- contracts/lending-contract/src/lib.rs: what the farming entry points pay and what they ask for.
use xource_x.Prelude.{ℕ, ◌+◌, ◌-◌, ◌*◌, ◌/◌, ◌≤◌, ◌<◌, ◌≡◌, true, some, arith}
use native.Mathlib.Nat.{mul-le-mul_right}
use xource_x.Prelude.Words.{u64_mod, checked_add_u64}
use xource_x.Prelude.Outcome.{ok, Returns}
use xource_x.Prelude.Dict.{or_default}
use xource_x.AccessControl.{Address}
use xource_x.Lending.Types.{RewardPool, UserStake}
use xource_x.Lending.Store.{Ledger, Store}
use xource_x.Lending.Pool.Effects.{shares_of}
use xource_x.Lending.Rewards.{
  reward_precision, no_stake, accrue_rewards, pending_rewards, stake_lp_tokens, unstake_lp_tokens,
  claim_rewards,
}

-- The stake of a user, and its amount.
abbrev pub stake_of : {W : Type 0} → Store W → Address → Address → UserStake
stake_of s user asset = or_default no_stake (s.user_stakes user asset)

abbrev pub staked_of : {W : Type 0} → Store W → Address → Address → ℕ
staked_of s user asset = (stake_of s user asset).amount

-- A second update at the same time changes nothing.
accrue_rewards-accrue_rewards :
    (now : ℕ) (pool : RewardPool)
    → accrue_rewards now (accrue_rewards now pool) ≡ accrue_rewards now pool
unfolding accrue_rewards
accrue_rewards-accrue_rewards now pool = ground arith

sub-le_self : (a b : ℕ) → a - b ≤ a
sub-le_self a b = omega arith

-- What a stake earns between two readings of the pool.
abbrev pub earned_between : RewardPool → RewardPool → UserStake → ℕ
earned_between before later stake =
    (later.reward_per_token_stored - before.reward_per_token_stored)
    * stake.amount
    / reward_precision

module _ {W : Type 0} (l : Ledger) (s t : Store W) where
  -- The rewards that a claim pays are not marked as paid: where the claim has advanced the pool, and
  -- the product of the stake and the rewards per token fits a u64, a second claim at the same time
  -- succeeds and pays what the stake earned since the last update once more.
  pub claim_rewards_twice :
      (user asset : Address) (stake : UserStake) (pool : RewardPool) (paid : ℕ)
      → s.user_stakes user asset ≡ some stake
      → s.reward_pools asset ≡ some pool
      → 0 < earned_between pool (accrue_rewards l.timestamp pool) stake
      → (accrue_rewards l.timestamp pool).reward_per_token_stored * stake.amount < u64_mod
      → claim_rewards l user asset s ≡ ok (paid, t)
      → Returns
          (λ again u. again ≡ earned_between pool (accrue_rewards l.timestamp pool) stake)
          (claim_rewards l user asset t)
  unfolding claim_rewards pending_rewards
  claim_rewards_twice user asset stake pool paid held found earned fits h = ground (
    arith,
    accrue_rewards-accrue_rewards l.timestamp pool,
    mul-le-mul_right stake.amount (
        sub-le_self (accrue_rewards l.timestamp pool).reward_per_token_stored
          pool.reward_per_token_stored),
  )

  -- Where the asset has a reward pool, staking is authorised by the user and asks for as many shares as
  -- it stakes, but takes none: the shares are as they were, free for a further stake or a withdrawal,
  -- while the stake grows by the amount (a sum past a u64 counts as 0). What the stake had earned is
  -- set to 0.
  stake_lp_tokens-Staked :
      (user asset : Address) (amount : ℕ) (pool : RewardPool)
      → s.reward_pools asset ≡ some pool
      → stake_lp_tokens l user asset amount s ≡ ok (tt, t)
      → (l.authorized user ≡ true)
        × (0 < amount)
        × (amount ≤ shares_of s asset user)
        × (t.shares ≡ s.shares)
        × (staked_of t user asset ≡ or_default 0 (checked_add_u64 (staked_of s user asset) amount))
        × ((stake_of t user asset).rewards ≡ 0)
  unfolding stake_lp_tokens
  stake_lp_tokens-Staked user asset amount pool found h = ground arith

  -- Unstaking takes no more than is staked, and keeps the rewards for a claim.
  pub unstake_lp_tokens-Unstaked :
      (user asset : Address) (amount : ℕ) (stake : UserStake)
      → s.user_stakes user asset ≡ some stake
      → unstake_lp_tokens l user asset amount s ≡ ok (tt, t)
      → (l.authorized user ≡ true)
        × (0 < amount)
        × (amount ≤ stake.amount)
        × (staked_of t user asset + amount ≡ stake.amount)
        × (t.shares ≡ s.shares)
  unfolding unstake_lp_tokens
  unstake_lp_tokens-Unstaked user asset amount stake held h = ground arith
