-- ===== src/Lending/RateViews.antt =====
-- contracts/lending-contract/src/lib.rs: the views of the rates and of the liquidity.
pub mod Supply
use xource_x.Prelude.{ℕ, ◌-◌, ◌*◌, ◌/◌, none, some}
use xource_x.Prelude.Words.{as_u32, checked_mul_u128}
use xource_x.Prelude.Outcome.{◌>>=◌, ◌>>◌, pure, gets, unwrap}
use xource_x.Prelude.Dict.{or_default}
use xource_x.AccessControl.{Address}
use xource_x.Lending.Types.{PoolState}
use xource_x.Lending.Math.{get_utilization_bps, two_slope_rate, interest_numerator}
use xource_x.Lending.Store.{Action, require_initialized, get_pool}
use xource_x.Lending.Terms.{rate_at}

module _ {W : Type 0} where
  -- The pool of the primary token; a store without that token traps.
  abbrev primary_pool : Action W PoolState
  primary_pool = do found ← gets (λ s. s.token); token ← unwrap found; get_pool token

  unfoldable pub get_current_interest_rate : Address → Action W ℕ
  unfolding require_initialized get_pool rate_at
  get_current_interest_rate asset = do
    require_initialized
    pool ← get_pool asset
    rate_at pool (get_utilization_bps pool.total_borrowed pool.total_deposits)

  unfoldable pub get_borrow_rate : Action W ℕ
  unfolding require_initialized get_pool rate_at
  get_borrow_rate = do
    require_initialized
    pool ← primary_pool
    rate_at pool (get_utilization_bps pool.total_borrowed pool.total_deposits)

  unfoldable pub simulate_rate : ℕ → Action W ℕ
  unfolding require_initialized get_pool rate_at
  simulate_rate utilization_bps = do
    require_initialized
    model ← gets (λ s. s.rate_model)
    elim model [
      | some m ↦ pure (two_slope_rate m utilization_bps)
      | none ↦ (do pool ← primary_pool; rate_at pool utilization_bps)
    ]

  unfoldable pub available_liquidity : Address → Action W ℕ
  unfolding require_initialized get_pool
  available_liquidity asset = do
    require_initialized
    pool ← get_pool asset
    pure (pool.total_deposits - pool.total_borrowed)

  -- The configured model's reserve factor, or the pool's own.
  unfoldable pub reserve_factor_for : PoolState → Action W ℕ
  reserve_factor_for pool = do
    model ← gets (λ s. s.rate_model)
    pure (elim model [ some m ↦ m.reserve_factor_bps | none ↦ pool.reserve_factor_bps ])

  unfoldable pub get_supply_rate : Action W ℕ
  unfolding require_initialized get_pool get_borrow_rate reserve_factor_for
  get_supply_rate = do
    require_initialized
    pool ← primary_pool
    let utilization_bps = get_utilization_bps pool.total_borrowed pool.total_deposits
    borrow_rate ← get_borrow_rate
    reserve_factor ← reserve_factor_for pool
    let scaled = or_default 0 (checked_mul_u128 borrow_rate utilization_bps)
    let kept = or_default 0 (checked_mul_u128 scaled (10000 - reserve_factor))
    pure (as_u32 (kept / (10000 * 10000)))

  -- The supply rate of any asset's pool.
  unfoldable pub supply_rate_bps_for : Address → Action W ℕ
  unfolding get_pool rate_at reserve_factor_for interest_numerator
  supply_rate_bps_for asset = do
    pool ← get_pool asset
    let utilization_bps = get_utilization_bps pool.total_borrowed pool.total_deposits
    borrow_rate ← rate_at pool utilization_bps
    reserve_factor ← reserve_factor_for pool
    let kept = interest_numerator borrow_rate utilization_bps (10000 - reserve_factor)
    pure (as_u32 (kept / (10000 * 10000)))
