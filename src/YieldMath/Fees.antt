-- ===== src/YieldMath/Fees.antt =====
-- contracts/inheritance-contract/src/yield_math.rs: the fee split and the simple interest.
use xource_x.Prelude.{ℕ, Bool-cases, inl, inr, ◌||◌, ◌+◌, ◌-◌, ◌*◌, ◌/◌, ◌≤◌, ◌<◌, ◌≡◌, arith, ◌==◌}
use native.Mathlib.Nat.{div-mul-le_self, mul-le-mul, mul-le-mul_left}
use xource_x.Prelude.Words.{u64_mod}
use xource_x.Prelude.Outcome.{ok, err}
use xource_x.Lending.Math.{interest_numerator}
use xource_x.Lending.PlanYield.Views.{simulate_plan_yield}
use xource_x.YieldMath.{
  invalid_allocation, max_performance_fee_bps, validate_performance_fee, validate_yield_rate,
  safe_sub, safe_mul_u128, safe_div_u128, to_u64, mul_div, apply_bps, simple_interest,
  split_performance_fee,
}
use xource_x.YieldMath.Growth.{Answered}

-- The fee at a rate of at most 50%.
fee_is_half : (amount fee_bps : ℕ) → fee_bps ≤ 5_000 → amount * fee_bps / 10_000 * 2 ≤ amount
fee_is_half amount fee_bps h =
    let rounded : amount * fee_bps / 10_000 * 10_000 ≤ amount * fee_bps =
      div-mul-le_self (amount * fee_bps) 10_000 in
    let bound : amount * fee_bps ≤ amount * 5_000 = mul-le-mul_left amount h in omega arith

-- A fee above 50% is refused.
split_performance_fee_refused :
    (amount fee_bps : ℕ)
    → max_performance_fee_bps < fee_bps
    → split_performance_fee amount fee_bps ≡ err invalid_allocation
unfolding split_performance_fee validate_performance_fee
split_performance_fee_refused amount fee_bps high = ground arith

-- A fee of at most 50% splits every u64 amount, without an error, into a net part and a fee that sum
-- up to the amount, and the fee is at most half of it.
pub split_performance_fee_whole :
    (amount fee_bps : ℕ)
    → amount < u64_mod
    → fee_bps ≤ max_performance_fee_bps
    → (net : ℕ) × (fee : ℕ) × (split_performance_fee amount fee_bps ≡ ok (net, fee))
      × (net + fee ≡ amount)
      × (fee * 2 ≤ amount)
unfolding split_performance_fee validate_performance_fee apply_bps mul_div safe_sub safe_mul_u128
    safe_div_u128 to_u64
split_performance_fee_whole amount fee_bps small low =
    let fee = amount * fee_bps / 10_000 in
    let half = fee_is_half amount fee_bps low in
    let product : amount * fee_bps ≤ u64_mod * 5_000 =
      mul-le-mul {n₂ = u64_mod} (omega arith) low in
    elim (Bool-cases ((amount == 0) || (fee_bps == 0))) [
      | inl nothing ↦ (amount, 0, ground arith, omega arith, omega arith)
      | inr something ↦ (amount - fee, fee, ground arith, omega arith, half)
    ]

-- Where the simple interest is a value, it is what the lending pool's `simulate_plan_yield` accrues
-- for the same principal, rate and time; it never traps.
pub simple_interest-simulate_plan_yield :
    (principal rate_bps elapsed : ℕ)
    → Answered
        (λ interest. interest ≡ simulate_plan_yield principal rate_bps elapsed)
        (simple_interest principal rate_bps elapsed)
unfolding simple_interest simulate_plan_yield validate_yield_rate safe_mul_u128 safe_div_u128 to_u64
    interest_numerator
simple_interest-simulate_plan_yield principal rate_bps elapsed = ground arith
