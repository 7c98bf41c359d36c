-- ===== src/YieldMath.antt =====
-- contracts/inheritance-contract/src/yield_math.rs: the checked arithmetic, the interest and the fee
-- split of the inheritance contract, on u64 amounts with u128 intermediates.
pub mod Growth
pub mod Fees
mod Tests
use xource_x.Prelude.{
  ℕ, zero, suc, ◌+◌, ◌-◌, ◌*◌, ◌/◌, ◌%◌, Bool, true, false, ◌||◌, ◌&&◌, ltb, leb, ◌==◌,
  if◌then◌else◌,
}
use xource_x.Prelude.Words.{u32_mod, u64_mod, u128_mod, as_u32, saturating_add_u64}
use xource_x.Prelude.Outcome.{Outcome, ok, err, trap}

-- The variants of `InheritanceError` that this file returns.
pub data InheritanceError : Type 0 where
  invalid_total_amount invalid_allocation invalid_beneficiary_data : InheritanceError

-- A fallible computation, and `?`.
abbrev pub Checked : Type 0 → Type 0
Checked = Outcome InheritanceError

infixl 5 ◌>>=◌
abbrev pub ◌>>=◌ : {A B : Type 0} → Checked A → (A → Checked B) → Checked B
ok a >>= f = f a
err e >>= f = err e
trap >>= f = trap

infixl 5 ◌>>◌
abbrev pub ◌>>◌ : {A B : Type 0} → Checked A → Checked B → Checked B
m >> k = m >>= λ _. k

abbrev pub bps_denominator : ℕ
bps_denominator = 10_000

abbrev pub yield_scale : ℕ
yield_scale = 1_000_000_000_000

abbrev pub days_per_year : ℕ
days_per_year = 365

abbrev pub seconds_per_year : ℕ
seconds_per_year = 31_536_000

abbrev pub max_yield_rate_bps : ℕ
max_yield_rate_bps = 10_000

abbrev pub max_performance_fee_bps : ℕ
max_performance_fee_bps = 5_000

abbrev pub max_compound_periods : ℕ
max_compound_periods = 36_500

-- A value within the bound of its type, or the error of an overflow.
abbrev below : ℕ → ℕ → Checked ℕ
below bound n = if ltb n bound then ok n else err invalid_total_amount

unfoldable pub safe_add : ℕ → ℕ → Checked ℕ
safe_add a b = below u64_mod (a + b)

unfoldable pub safe_sub : ℕ → ℕ → Checked ℕ
safe_sub a b = if ltb a b then err invalid_total_amount else ok (a - b)

unfoldable pub safe_mul : ℕ → ℕ → Checked ℕ
safe_mul a b = below u64_mod (a * b)

unfoldable pub safe_div : ℕ → ℕ → Checked ℕ
safe_div a b = if b == 0 then err invalid_beneficiary_data else ok (a / b)

unfoldable pub safe_mul_u128 : ℕ → ℕ → Checked ℕ
safe_mul_u128 a b = below u128_mod (a * b)

unfoldable pub safe_div_u128 : ℕ → ℕ → Checked ℕ
safe_div_u128 a b = if b == 0 then err invalid_beneficiary_data else ok (a / b)

unfoldable pub to_u64 : ℕ → Checked ℕ
to_u64 value = below u64_mod value

unfoldable pub mul_div : ℕ → ℕ → ℕ → Checked ℕ
mul_div a b denominator = if denominator == 0 then err invalid_beneficiary_data else (do
  product ← safe_mul_u128 a b
  quotient ← safe_div_u128 product denominator
  to_u64 quotient)

unfoldable pub apply_bps : ℕ → ℕ → Checked ℕ
apply_bps amount bps = mul_div amount bps bps_denominator

-- The validations: an argument above its maximum is rejected.
abbrev at_most : ℕ → ℕ → Checked (Unit {0})
at_most most n = if ltb most n then err invalid_allocation else ok tt

unfoldable pub validate_yield_rate : ℕ → Checked (Unit {0})
validate_yield_rate rate_bps = at_most max_yield_rate_bps rate_bps

unfoldable pub validate_performance_fee : ℕ → Checked (Unit {0})
validate_performance_fee fee_bps = at_most max_performance_fee_bps fee_bps

unfoldable pub validate_periods : ℕ → Checked (Unit {0})
validate_periods periods = at_most max_compound_periods periods

unfoldable pub simple_interest : ℕ → ℕ → ℕ → Checked ℕ
simple_interest principal annual_rate_bps elapsed_secs = do
  validate_yield_rate annual_rate_bps
  if (principal == 0) || ((annual_rate_bps == 0) || (elapsed_secs == 0)) then ok 0 else (do
    yearly ← safe_mul_u128 principal annual_rate_bps
    numerator ← safe_mul_u128 yearly elapsed_secs
    denominator ← safe_mul_u128 bps_denominator seconds_per_year
    quotient ← safe_div_u128 numerator denominator
    to_u64 quotient)

unfoldable pub daily_rate_bps : ℕ → Checked ℕ
daily_rate_bps annual_rate_bps = do
  validate_yield_rate annual_rate_bps
  ok (as_u32 (annual_rate_bps / days_per_year))

unfoldable pub periods_elapsed : ℕ → ℕ → Checked ℕ
periods_elapsed elapsed_secs period_secs =
    if period_secs == 0 then err invalid_beneficiary_data else ok (elapsed_secs / period_secs)

unfoldable pub daily_growth_factor : ℕ → Checked ℕ
daily_growth_factor annual_rate_bps = do
  validate_yield_rate annual_rate_bps
  daily_numerator ← safe_mul_u128 yield_scale annual_rate_bps
  divisor ← safe_mul_u128 bps_denominator days_per_year
  daily_increment ← safe_div_u128 daily_numerator divisor
  below u128_mod (yield_scale + daily_increment)

unfoldable pub mul_factor : ℕ → ℕ → Checked ℕ
mul_factor a b = do product ← safe_mul_u128 a b; safe_div_u128 product yield_scale

-- The loop of `pow_factor`; `trap` where the fuel runs out.
unfoldable pub pow_loop : ℕ → ℕ → ℕ → ℕ → Checked ℕ
pow_loop zero result accumulator remaining = trap
pow_loop (suc fuel) result accumulator remaining = do
  next ← if (remaining % 2) == 1 then mul_factor result accumulator else ok result
  if (remaining / 2) == 0 then ok next else (do
    squared ← mul_factor accumulator accumulator
    pow_loop fuel next squared (remaining / 2))

-- The turns of the loop for at most `max_compound_periods` periods.
unfoldable pub pow_fuel : ℕ
pow_fuel = 16

unfoldable pub pow_factor : ℕ → ℕ → Checked ℕ
pow_factor base exponent = do
  validate_periods exponent
  if exponent == 0 then ok yield_scale else pow_loop pow_fuel yield_scale base exponent

-- The amount after a growth.
unfoldable pub grow : ℕ → ℕ → Checked ℕ
grow principal growth = do
  scaled ← safe_mul_u128 principal growth
  quotient ← safe_div_u128 scaled yield_scale
  to_u64 quotient

unfoldable pub compound_amount : ℕ → ℕ → ℕ → Checked ℕ
compound_amount principal rate_bps_per_period periods = do
  validate_yield_rate rate_bps_per_period
  validate_periods periods
  if (principal == 0) || ((rate_bps_per_period == 0) || (periods == 0)) then ok principal else (do
    scaled ← safe_mul_u128 yield_scale rate_bps_per_period
    per_period_increment ← safe_div_u128 scaled bps_denominator
    per_period_factor ← below u128_mod (yield_scale + per_period_increment)
    growth ← pow_factor per_period_factor periods
    grow principal growth)

unfoldable pub compound_interest : ℕ → ℕ → ℕ → Checked ℕ
compound_interest principal rate_bps_per_period periods = do
  total ← compound_amount principal rate_bps_per_period periods
  safe_sub total principal

unfoldable pub project_daily_compound : ℕ → ℕ → ℕ → Checked ℕ
project_daily_compound principal annual_rate_bps days = do
  validate_yield_rate annual_rate_bps
  validate_periods days
  if (principal == 0) || ((annual_rate_bps == 0) || (days == 0)) then ok principal else (do
    daily_factor ← daily_growth_factor annual_rate_bps
    growth ← pow_factor daily_factor days
    grow principal growth)

unfoldable pub project_daily_interest : ℕ → ℕ → ℕ → Checked ℕ
project_daily_interest principal annual_rate_bps days = do
  total ← project_daily_compound principal annual_rate_bps days
  safe_sub total principal

unfoldable pub effective_apy_bps : ℕ → Checked ℕ
effective_apy_bps nominal_annual_rate_bps = do
  validate_yield_rate nominal_annual_rate_bps
  if nominal_annual_rate_bps == 0 then ok 0 else (do
    daily_factor ← daily_growth_factor nominal_annual_rate_bps
    growth ← pow_factor daily_factor days_per_year
    gain ← if ltb growth yield_scale then err invalid_total_amount else ok (growth - yield_scale)
    scaled ← safe_mul_u128 gain bps_denominator
    bps ← safe_div_u128 scaled yield_scale
    below u32_mod bps)

-- The net amount and the fee.
unfoldable pub split_performance_fee : ℕ → ℕ → Checked (ℕ × ℕ)
split_performance_fee amount fee_bps = do
  validate_performance_fee fee_bps
  if (amount == 0) || (fee_bps == 0)
      then ok (amount, 0)
      else (do fee ← apply_bps amount fee_bps; net ← safe_sub amount fee; ok (net, fee))

unfoldable pub blended_rate_bps : ℕ → ℕ → ℕ → ℕ → Checked ℕ
blended_rate_bps principal_a rate_a_bps principal_b rate_b_bps = do
  validate_yield_rate rate_a_bps
  validate_yield_rate rate_b_bps
  total ← safe_add principal_a principal_b
  if total == 0 then ok 0 else (do
    weighted_a ← safe_mul_u128 principal_a rate_a_bps
    weighted_b ← safe_mul_u128 principal_b rate_b_bps
    weighted ← below u128_mod (weighted_a + weighted_b)
    blended ← safe_div_u128 weighted total
    below u32_mod blended)

unfoldable pub next_harvest_at : ℕ → ℕ → ℕ
next_harvest_at last_harvest_at interval_secs = saturating_add_u64 last_harvest_at interval_secs

unfoldable pub is_harvest_due : ℕ → ℕ → ℕ → ℕ → ℕ → Bool
is_harvest_due now last_harvest_at interval_secs pending minimum =
    let cooldown_elapsed =
      (interval_secs == 0) || leb (saturating_add_u64 last_harvest_at interval_secs) now in
    let clears_floor = leb minimum pending in cooldown_elapsed && (clears_floor && ltb 0 pending)
