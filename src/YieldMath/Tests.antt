-- ===== src/YieldMath/Tests.antt =====
-- Projections, fees and interest at the values of the contract's own tests.
use xource_x.Prelude.{ℕ, ◌+◌, ◌-◌, ◌*◌, ◌≤◌, ◌≡◌, refl, arith}
use xource_x.Prelude.Outcome.{ok, err, trap}
use xource_x.Lending.PlanYield.Views.{simulate_plan_yield}
use xource_x.YieldMath.{
  split_performance_fee, simple_interest, project_daily_compound, project_daily_interest,
  effective_apy_bps, pow_factor, pow_loop, pow_fuel, mul_factor, daily_growth_factor, grow,
  validate_yield_rate, validate_periods, safe_mul_u128, safe_div_u128, to_u64,
}
use xource_x.YieldMath.Growth.{Answered, project_daily_interest-project_daily_compound}
use xource_x.YieldMath.Fees.{split_performance_fee_whole, simple_interest-simulate_plan_yield}

five_percent_compounds : project_daily_compound 1_000_000 500 365 ≡ ok 1_051_267
unfolding project_daily_compound daily_growth_factor pow_factor pow_loop pow_fuel mul_factor grow
    validate_yield_rate validate_periods safe_mul_u128 safe_div_u128 to_u64
five_percent_compounds = refl

five_percent_apy : effective_apy_bps 500 ≡ ok 512
unfolding effective_apy_bps daily_growth_factor pow_factor pow_loop pow_fuel mul_factor
    validate_yield_rate validate_periods safe_mul_u128 safe_div_u128
five_percent_apy = refl

project_daily_interest-project_daily_compound_example :
    Answered (λ total. 1_000_000 ≤ total) (project_daily_compound 1_000_000 500 365)
    × (project_daily_interest 1_000_000 500 365 ≡ elim (project_daily_compound 1_000_000 500 365) [
      | ok total ↦ ok (total - 1_000_000)
      | err e ↦ err e
      | trap ↦ trap
    ])
project_daily_interest-project_daily_compound_example =
    project_daily_interest-project_daily_compound 1_000_000 500 365

split_performance_fee_whole_example :
    (net : ℕ) × (fee : ℕ) × (split_performance_fee 1_000 1_000 ≡ ok (net, fee))
    × (net + fee ≡ 1_000)
    × (fee * 2 ≤ 1_000)
split_performance_fee_whole_example =
    split_performance_fee_whole 1_000 1_000 (omega arith) (omega arith)

simple_interest-simulate_plan_yield_example :
    Answered
      (λ interest. interest ≡ simulate_plan_yield 1_000_000 500 31_536_000)
      (simple_interest 1_000_000 500 31_536_000)
simple_interest-simulate_plan_yield_example =
    simple_interest-simulate_plan_yield 1_000_000 500 31_536_000
