-- ===== src/SafeMath.antt =====
-- contracts/inheritance-contract/src/safe_math.rs: checked arithmetic and fixed-point compounding on
-- i128 amounts. Division by 0 is `n / 0 = 0` on naturals, so `tdiv` is exact for a divisor of either
-- sign, and the code asks for a zero divisor first.
pub mod Powers
pub mod Compound
pub mod Yield
mod Tests
use xource_x.Prelude.{
  ℕ, zero, suc, ◌+◌, ◌*◌, ◌/◌, ◌%◌, Bool, true, false, ◌||◌, ◌&&◌, ltb, ◌==◌, if◌then◌else◌,
}
use xource_x.Prelude.Words.{u64_mod}
use xource_x.Prelude.Int.{
  ℤ, pos, negsuc, pos_part, neg_part, ◌+ℤ◌, ◌-ℤ◌, ◌*ℤ◌, tdiv, fits_i128, ltb_ℤ,
}
use xource_x.Prelude.Outcome.{Outcome, ok, err, trap}

-- The variants of `crate::Error` that this file returns.
pub data Error : Type 0 where
  math_overflow division_by_zero negative_amount invalid_yield_rate : Error

-- A fallible computation, and `?`.
abbrev pub Checked : Type 0 → Type 0
Checked = Outcome Error

infixl 5 ◌>>=◌
abbrev pub ◌>>=◌ : {A B : Type 0} → Checked A → (A → Checked B) → Checked B
ok a >>= f = f a
err e >>= f = err e
trap >>= f = trap

abbrev pub bps_denominator : ℕ
bps_denominator = 10_000

abbrev pub yield_scale : ℕ
yield_scale = 1_000_000_000_000

abbrev pub seconds_per_day : ℕ
seconds_per_day = 86_400

abbrev pub days_per_year : ℕ
days_per_year = 365

abbrev pub max_yield_rate_bps : ℕ
max_yield_rate_bps = 10_000

-- `checked_…(…).ok_or(Error::MathOverflow)` on i128
abbrev in_range : ℤ → Checked ℤ
in_range a = if fits_i128 a then ok a else err math_overflow

abbrev is_zero : ℤ → Bool
is_zero a = (pos_part a == 0) && (neg_part a == 0)

abbrev is_negative : ℤ → Bool
is_negative a = ltb 0 (neg_part a)

unfoldable pub safe_add : ℤ → ℤ → Checked ℤ
unfolding ◌+ℤ◌
safe_add a b = in_range (a +ℤ b)

unfoldable pub safe_sub : ℤ → ℤ → Checked ℤ
unfolding ◌-ℤ◌
safe_sub a b = in_range (a -ℤ b)

unfoldable pub safe_mul : ℤ → ℤ → Checked ℤ
unfolding ◌*ℤ◌
safe_mul a b = in_range (a *ℤ b)

unfoldable pub safe_div : ℤ → ℤ → Checked ℤ
unfolding tdiv
safe_div a b = if is_zero b then err division_by_zero else in_range (tdiv a b)

unfoldable pub safe_add_u64 : ℕ → ℕ → Checked ℕ
safe_add_u64 a b = if ltb (a + b) u64_mod then ok (a + b) else err math_overflow

unfoldable pub safe_mul_u64 : ℕ → ℕ → Checked ℕ
safe_mul_u64 a b = if ltb (a * b) u64_mod then ok (a * b) else err math_overflow

unfoldable pub mul_div : ℤ → ℤ → ℤ → Checked ℤ
unfolding safe_mul safe_div
mul_div a b denominator = do product ← safe_mul a b; safe_div product denominator

unfoldable pub apply_bps : ℤ → ℕ → Checked ℤ
unfolding mul_div
apply_bps amount bps = mul_div amount (pos bps) (pos bps_denominator)

unfoldable pub validate_yield_rate : ℕ → Checked (Unit {0})
validate_yield_rate rate_bps =
    if ltb max_yield_rate_bps rate_bps then err invalid_yield_rate else ok tt

-- The end of a turn of the loop: `break` at the exponent 0, else the next turn, with the factor
-- squared.
unfoldable pub square_or_break : (ℤ → Checked ℤ) → ℕ → ℤ → ℤ → Checked ℤ
square_or_break next exp result acc = elim (exp == 0) [
  | true ↦ ok result
  | false ↦ (do acc' ← mul_div acc acc (pos yield_scale); next acc')
]

-- The loop of `pow_factor`; `trap` where the fuel runs out, which no u64 exponent makes it do.
unfoldable pub pow_loop : ℕ → ℕ → ℤ → ℤ → Checked ℤ
unfolding square_or_break
pow_loop zero exp result acc = trap
pow_loop (suc fuel) exp result acc = do
  result' ← elim (exp % 2 == 1) [ true ↦ mul_div result acc (pos yield_scale) | false ↦ ok result ]
  square_or_break (λ acc'. pow_loop fuel (exp / 2) result' acc') (exp / 2) result' acc

unfoldable pub pow_factor : ℤ → ℕ → Checked ℤ
pow_factor base exp = elim (is_negative base) [
  | true ↦ err negative_amount
  | false ↦ pow_loop 64 exp (pos yield_scale) base
]

unfoldable pub compound_amount : ℤ → ℕ → ℕ → Checked ℤ
unfolding safe_add apply_bps
compound_amount principal rate_bps_per_period periods =
    if is_negative principal
    then err negative_amount
    else if is_zero principal || (rate_bps_per_period == 0) || (periods == 0)
    then ok principal
    else (do
      rate ← apply_bps (pos yield_scale) rate_bps_per_period
      per_period_factor ← safe_add (pos yield_scale) rate
      growth ← pow_factor per_period_factor periods
      mul_div principal growth (pos yield_scale))

unfoldable pub compound_yield : ℤ → ℕ → ℕ → Checked ℤ
unfolding safe_add safe_mul safe_div
compound_yield principal annual_rate_bps elapsed_seconds =
    let periods = elapsed_seconds / seconds_per_day in
    if is_negative principal
    then err negative_amount
    else if is_zero principal || (annual_rate_bps == 0) || (periods == 0)
    then ok principal
    else (do
      yearly ← safe_mul (pos annual_rate_bps) (pos yield_scale)
      year ← safe_mul (pos bps_denominator) (pos days_per_year)
      daily_increment ← safe_div yearly year
      daily_factor ← safe_add (pos yield_scale) daily_increment
      growth ← pow_factor daily_factor periods
      mul_div principal growth (pos yield_scale))

unfoldable pub accrued_interest : ℤ → ℕ → ℕ → Checked ℤ
unfolding safe_sub
accrued_interest principal annual_rate_bps elapsed_seconds = do
  total ← compound_yield principal annual_rate_bps elapsed_seconds
  safe_sub total principal
