-- ===== src/Lending/Math/Curve.antt =====
-- contracts/lending-contract/src/lib.rs: the shape of the rate curve and of the interest.
use xource_x.Prelude.{ℕ, ◌+◌, ◌-◌, ◌*◌, ◌/◌, ◌≤◌, ◌<◌, ◌≡◌, min, Bool-cases, inl, inr, leb, arith}
use native.Mathlib.Nat.{
  div-le_of_le-mul, le-div_iff_mul-le, div-mul-le_self, le_trans, mul-le-mul_right,
}
use xource_x.Prelude.Words.{u32_mod, u64_mod, u128_mod, saturating_add_u32}
use xource_x.Lending.Types.{RateModel}
use xource_x.Lending.Math.{
  two_slope_rate, calculate_interest, interest_numerator, interest_denominator,
}

-- Dividing rounds down, so it keeps the order.
div_mono : (a b d : ℕ) → 0 < d → a ≤ b → a / d ≤ b / d
div_mono a b d h p =
    (le-div_iff_mul-le {k = d} {x = a / d} {y = b} h).1 (le_trans (div-mul-le_self a d) p)

-- A part of a whole, of `s`: at most `s`.
part-le : (a s d : ℕ) → a ≤ d → a * s / d ≤ s
part-le a s d p = div-le_of_le-mul d (mul-le-mul_right s p)

-- The rates of a model are u32 values, and it is one that `set_rate_model` accepts.
pub record IsRateModel (m : RateModel) : Type 0 where
  pub slope1 : m.slope1_bps < u32_mod
  pub slope2 : m.slope2_bps < u32_mod
  pub kink : 0 < m.optimal_utilization_bps
  pub below : m.optimal_utilization_bps < 10_000

-- Below and above the kink.
two_slope_rate-low :
    (m : RateModel) (u : ℕ)
    → IsRateModel m
    → u ≤ m.optimal_utilization_bps
    → two_slope_rate m u
      ≡ saturating_add_u32 m.base_rate_bps (u * m.slope1_bps / m.optimal_utilization_bps)
unfolding two_slope_rate
two_slope_rate-low m u h p =
    ground (arith, part-le u m.slope1_bps m.optimal_utilization_bps p, h.slope1, h.kink, h.below)

two_slope_rate-high :
    (m : RateModel) (u : ℕ)
    → IsRateModel m
    → m.optimal_utilization_bps < u
    → two_slope_rate m u
      ≡ saturating_add_u32 (saturating_add_u32 m.base_rate_bps m.slope1_bps) (
          (min u 10_000 - m.optimal_utilization_bps)
          * m.slope2_bps
          / (10_000 - m.optimal_utilization_bps))
unfolding two_slope_rate
two_slope_rate-high m u h p = ground (
  arith,
  part-le (min u 10_000 - m.optimal_utilization_bps) m.slope2_bps
      (10_000 - m.optimal_utilization_bps) (ground arith),
  h.slope2,
  h.kink,
  h.below,
)

-- A higher utilization never has a lower rate, on either side of the kink and across it.
two_slope_rate_mono :
    (m : RateModel) (u v : ℕ) → IsRateModel m → u ≤ v → two_slope_rate m u ≤ two_slope_rate m v
two_slope_rate_mono m u v h p =
    let optimal = m.optimal_utilization_bps in
    let span = 10_000 - optimal in
    elim (Bool-cases (leb v optimal)) [
      | inl low ↦
          rw (two_slope_rate-low m u h (ground arith), two_slope_rate-low m v h (ground arith))
            (omega (
              arith,
              div_mono (u * m.slope1_bps) (v * m.slope1_bps) optimal h.kink
                  (mul-le-mul_right m.slope1_bps p),
            ))
      | inr high ↦ elim (Bool-cases (leb u optimal)) [
        | inl low ↦
            rw (two_slope_rate-low m u h (ground arith), two_slope_rate-high m v h (ground arith))
              (omega (arith, part-le u m.slope1_bps optimal (ground arith)))
        | inr above ↦
            let wider : min u 10_000 - optimal ≤ min v 10_000 - optimal = omega arith in
            rw (two_slope_rate-high m u h (ground arith), two_slope_rate-high m v h (ground arith))
              (omega (
                arith,
                div_mono ((min u 10_000 - optimal) * m.slope2_bps)
                    ((min v 10_000 - optimal) * m.slope2_bps) span (omega (arith, h.below))
                    (mul-le-mul_right m.slope2_bps wider),
              ))
      ]
    ]

-- Simple interest is the exact quotient rounded to the nearest unit, halves upwards, where the
-- product fits a u128 and the result a u64.
pub calculate_interest-nearest :
    (principal rate elapsed : ℕ)
    → principal * rate < u128_mod
    → principal * rate * elapsed + interest_denominator < u64_mod * interest_denominator
    → (calculate_interest principal rate elapsed * interest_denominator
        ≤ principal * rate * elapsed + interest_denominator / 2)
      × (principal * rate * elapsed + interest_denominator / 2
          < (calculate_interest principal rate elapsed + 1) * interest_denominator)
unfolding calculate_interest interest_numerator
calculate_interest-nearest principal rate elapsed h p = ground arith
