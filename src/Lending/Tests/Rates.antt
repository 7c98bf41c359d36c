-- ===== src/Lending/Tests/Rates.antt =====
-- The rate curve, the interest formula and the error codes at concrete values.
use xource_x.Prelude.{none, ◌≡◌, refl}
use xource_x.Lending.Types.{RateModel, reserve_not_found}
use xource_x.Lending.ErrorCodes.{error_code, error_of_code}
use xource_x.Lending.Math.{two_slope_rate, calculate_interest}

abbrev model : RateModel
model = record {
  base_rate_bps = 200;
  optimal_utilization_bps = 8_000;
  slope1_bps = 400;
  slope2_bps = 6_000;
  reserve_factor_bps = 1_000;
}

two_slope_rate_kink : two_slope_rate model 8_000 ≡ 600
unfolding two_slope_rate
two_slope_rate_kink = refl

two_slope_rate_full : two_slope_rate model 10_000 ≡ 6_600
unfolding two_slope_rate
two_slope_rate_full = refl

-- A year at 5% of 1 000.
calculate_interest_year : calculate_interest 1_000 500 31_536_000 ≡ 50
unfolding calculate_interest
calculate_interest_year = refl

reserve_not_found_lost : error_of_code (error_code reserve_not_found) ≡ none
unfolding error_code error_of_code
reserve_not_found_lost = refl
