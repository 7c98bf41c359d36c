-- ===== src/SafeMath/Tests.antt =====
-- Runs of the checked arithmetic.
use xource_x.Prelude.{◌≡◌, refl, ◌*◌}
use xource_x.Prelude.Int.{pos, negsuc, ◌*ℤ◌, ◌+ℤ◌, tdiv}
use xource_x.Prelude.Outcome.{ok, err}
use xource_x.SafeMath.{
  yield_scale, division_by_zero, math_overflow, negative_amount, safe_add, safe_mul, safe_div,
  mul_div, pow_factor, pow_loop, square_or_break, compound_amount, apply_bps,
}

safe_div_towards_zero : safe_div (negsuc 6) (pos 2) ≡ ok (negsuc 2)
unfolding safe_div tdiv
safe_div_towards_zero = refl

safe_div_by_zero : safe_div (pos 42) (pos 0) ≡ err division_by_zero
unfolding safe_div tdiv
safe_div_by_zero = refl

mul_div_scaled : mul_div (pos 7) (pos 3) (pos 2) ≡ ok (pos 10)
unfolding mul_div safe_mul safe_div ◌*ℤ◌ tdiv
mul_div_scaled = refl

pow_factor_integer : pow_factor (pos (2 * yield_scale)) 10 ≡ ok (pos (1024 * yield_scale))
unfolding pow_factor pow_loop square_or_break mul_div safe_mul safe_div ◌*ℤ◌ tdiv
pow_factor_integer = refl

pow_factor_overflow : pow_factor (pos (2 * yield_scale)) 200 ≡ err math_overflow
unfolding pow_factor pow_loop square_or_break mul_div safe_mul safe_div ◌*ℤ◌ tdiv
pow_factor_overflow = refl

pow_factor_negative : pow_factor (negsuc 0) 2 ≡ err negative_amount
unfolding pow_factor
pow_factor_negative = refl

compound_amount_periods : compound_amount (pos 10_000) 1_000 3 ≡ ok (pos 13_310)
unfolding compound_amount apply_bps safe_add pow_factor pow_loop square_or_break mul_div safe_mul
    safe_div ◌*ℤ◌ ◌+ℤ◌ tdiv
compound_amount_periods = refl
