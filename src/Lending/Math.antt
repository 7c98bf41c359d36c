-- ===== src/Lending/Math.antt =====
-- contracts/lending-contract/src/lib.rs: the pure formulas, with the u128 intermediates, the
-- rounding and the casts of the source.
pub mod Decimal
pub mod Curve
use xource_x.Prelude.{
  ℕ, zero, suc, ◌+◌, ◌-◌, ◌*◌, ◌/◌, ◌%◌, ◌≤◌, ◌<◌, min, Bool, ◌||◌, List, [], ◌∷◌, ltb, leb, ◌==◌,
  if◌then◌else◌,
}
use xource_x.Prelude.Words.{u128_mod, as_u32, as_u64, u32_mod, mul_div_u128, saturating_add_u32}
use xource_x.Lending.Types.{PoolState, RateModel}

abbrev pub minimum_liquidity : ℕ
minimum_liquidity = 1000

abbrev pub seconds_in_year : ℕ
seconds_in_year = 31_536_000

abbrev pub seconds_in_day : ℕ
seconds_in_day = 24 * 60 * 60

-- How many shares a deposit of `amount` mints.
unfoldable pub shares_for_deposit : PoolState → ℕ → ℕ
shares_for_deposit pool amount =
    if (pool.total_shares == 0) || (pool.total_deposits == 0)
    then amount
    else as_u64 (mul_div_u128 amount pool.total_shares pool.total_deposits)

-- How many tokens `shares` are worth.
unfoldable pub assets_for_shares : PoolState → ℕ → ℕ
assets_for_shares pool shares =
    if pool.total_shares == 0
    then 0
    else as_u64 (mul_div_u128 shares pool.total_deposits pool.total_shares)

-- `checked_mul` of the three factors; 0 where one of them overflows a u128.
unfoldable pub interest_numerator : ℕ → ℕ → ℕ → ℕ
interest_numerator principal rate_bps elapsed =
    if ltb (principal * rate_bps) u128_mod
    then (if ltb (principal * rate_bps * elapsed) u128_mod
        then principal * rate_bps * elapsed
        else 0)
    else 0

abbrev pub interest_denominator : ℕ
interest_denominator = 10_000 * seconds_in_year

-- Simple interest, rounded to the nearest unit.
unfoldable pub calculate_interest : ℕ → ℕ → ℕ → ℕ
unfolding interest_numerator
calculate_interest principal rate_bps elapsed =
    if (elapsed == 0) || (rate_bps == 0)
    then 0
    else (let total = interest_numerator principal rate_bps elapsed + interest_denominator / 2 in
        as_u64 (if ltb total u128_mod then total / interest_denominator else 0))

unfoldable pub get_utilization_bps : ℕ → ℕ → ℕ
get_utilization_bps total_borrowed total_deposits =
    let denominator = (total_deposits - total_borrowed) + total_borrowed in
    if denominator == 0 then 0 else min (total_borrowed * 10_000 / denominator) 10_000

unfoldable pub calculate_dynamic_rate : ℕ → ℕ → ℕ → ℕ
calculate_dynamic_rate base_rate_bps multiplier_bps utilization_bps =
    saturating_add_u32 base_rate_bps (as_u32 (utilization_bps * multiplier_bps / 10_000))

-- The kinked curve of a configured rate model.
unfoldable pub two_slope_rate : RateModel → ℕ → ℕ
two_slope_rate model utilization =
    let optimal : ℕ = min model.optimal_utilization_bps 10_000 in
    let utilization_bps : ℕ = min utilization 10_000 in
    if optimal == 0
    then saturating_add_u32 model.base_rate_bps model.slope2_bps
    else if leb utilization_bps optimal
    then saturating_add_u32 model.base_rate_bps
        (as_u32 (utilization_bps * model.slope1_bps / optimal))
    else (let excess = utilization_bps - optimal in
        let max_excess = 10_000 - optimal in
        let steep =
          if max_excess == 0 then model.slope2_bps else excess * model.slope2_bps / max_excess in
        saturating_add_u32 (saturating_add_u32 model.base_rate_bps model.slope1_bps) (as_u32 steep))

unfoldable pub calc_ltv_ratio_bps : ℕ → ℕ → ℕ
calc_ltv_ratio_bps principal collateral_amount =
    if collateral_amount == 0 then 0 else min (principal * 10_000 / collateral_amount) (u32_mod - 1)
