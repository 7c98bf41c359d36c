-- ===== src/Lending/PlanYield/Views.antt =====
-- contracts/lending-contract/src/lib.rs: the views of the plan positions.
use xource_x.Prelude.{ℕ, ◌+◌, ◌/◌, min, Option, none, some, List, [], ◌∷◌, ◌==◌, if◌then◌else◌}
use xource_x.Prelude.Words.{saturating_add_u32, saturating_add_u64}
use xource_x.Prelude.Outcome.{◌>>=◌, ◌>>◌, pure, gets}
use xource_x.AccessControl.{Address}
use xource_x.Lending.Types.{PlanYieldPosition}
use xource_x.Lending.Math.{interest_numerator, interest_denominator}
use xource_x.Lending.Store.{Ledger, Action, require_initialized, get_pool}
use xource_x.Lending.RateViews.{supply_rate_bps_for}
use xource_x.Lending.PlanYield.{clamp_u64, get_position, accrued_for_position}

pub record PlanYieldStats : Type 0 where
  pub asset : Address
  pub position_count : ℕ
  pub active_count : ℕ
  pub total_principal : ℕ
  pub total_harvested : ℕ
  pub available_yield : ℕ

unfoldable pub simulate_plan_yield : ℕ → ℕ → ℕ → ℕ
simulate_plan_yield principal rate_bps elapsed_secs =
    clamp_u64 (interest_numerator principal rate_bps elapsed_secs / interest_denominator)

-- The tallies after one more position.
unfoldable pub add_to_stats : Option PlanYieldPosition → PlanYieldStats → PlanYieldStats
add_to_stats none stats = stats
add_to_stats (some position) stats =
    if position.asset == stats.asset
    then (record stats {
      position_count = stats.position_count + 1;
      active_count = if position.active then stats.active_count + 1 else stats.active_count;
      total_principal =
          if position.active
          then saturating_add_u64 stats.total_principal position.principal
          else stats.total_principal;
      total_harvested = saturating_add_u64 stats.total_harvested position.total_harvested;
    })
    else stats

-- The loop of `get_plan_yield_stats`.
unfoldable pub scan_positions :
    (ℕ → Option PlanYieldPosition) → List ℕ → PlanYieldStats → PlanYieldStats
unfolding add_to_stats
scan_positions positions [] stats = stats
scan_positions positions (plan_id ∷ rest) stats =
    scan_positions positions rest (add_to_stats (positions plan_id) stats)

module _ {W : Type 0} where
  unfoldable pub get_accrued_plan_yield : Ledger → ℕ → Action W ℕ
  unfolding require_initialized get_position accrued_for_position get_pool
  get_accrued_plan_yield l plan_id = do
    require_initialized
    position ← get_position plan_id
    accrued ← accrued_for_position l position
    pool ← get_pool position.asset
    pure (min accrued pool.retained_yield)

  unfoldable pub get_plan_yield_rate : ℕ → Action W ℕ
  unfolding require_initialized get_position supply_rate_bps_for
  get_plan_yield_rate plan_id = do
    require_initialized
    position ← get_position plan_id
    supply_rate ← supply_rate_bps_for position.asset
    pure (saturating_add_u32 supply_rate position.boost_bps)

  unfoldable pub project_plan_yield : ℕ → ℕ → Action W ℕ
  unfolding require_initialized get_position get_plan_yield_rate simulate_plan_yield
  project_plan_yield plan_id horizon_secs = do
    require_initialized
    position ← get_position plan_id
    rate ← get_plan_yield_rate plan_id
    pure (simulate_plan_yield position.principal rate horizon_secs)

  unfoldable pub get_plan_yield_stats : Address → Action W PlanYieldStats
  unfolding require_initialized get_pool scan_positions
  get_plan_yield_stats asset = do
    require_initialized
    pool ← get_pool asset
    index ← gets (λ s. s.plan_yield_index)
    positions ← gets (λ s. s.plan_yields)
    pure (
        scan_positions positions index (record {
          asset = asset;
          position_count = 0;
          active_count = 0;
          total_principal = 0;
          total_harvested = 0;
          available_yield = pool.retained_yield;
        }))
