-- ===== src/YieldMath/Growth.antt =====
-- contracts/inheritance-contract/src/yield_math.rs: a projection never shrinks its principal.
use xource_x.Prelude.{
  ℕ, zero, suc, ◌-◌, ◌*◌, ◌/◌, ◌%◌, ◌^◌, ◌≤◌, ◌<◌, ◌≡◌, inl, inr, arith, ◌==◌, if◌then◌else◌,
}
use native.Mathlib.Nat.{pow-suc, pow-zero, le-div_iff_mul-le, mul-le-mul, mul-le-mul_left}
use xource_x.Prelude.Outcome.{ok, err, trap, Outcome-cases}
use xource_x.YieldMath.{
  Checked, ◌>>=◌, yield_scale, max_compound_periods, safe_sub, safe_mul_u128, safe_div_u128, to_u64,
  validate_yield_rate, validate_periods, daily_growth_factor, mul_factor, pow_fuel, pow_loop,
  pow_factor, grow, project_daily_compound, project_daily_interest,
}

-- The computation ends with a value of which this holds, or with an error; it does not trap.
abbrev pub Answered : {A : Type 0} → (A → Type 0) → Checked A → Type 0
Answered P (ok a) = P a
Answered P (err e) = Unit
Answered P trap = ⊥

scaled_up : (a b : ℕ) → yield_scale ≤ a → yield_scale ≤ b → yield_scale ≤ a * b / yield_scale
scaled_up a b p q = (le-div_iff_mul-le (omega arith)).1 (mul-le-mul p q)

mul_factor-Answered :
    (a b : ℕ) → yield_scale ≤ a → yield_scale ≤ b → Answered (λ g. yield_scale ≤ g) (mul_factor a b)
unfolding mul_factor safe_mul_u128 safe_div_u128
mul_factor-Answered a b p q = ground (arith, scaled_up a b p q)

half_below : (n fuel : ℕ) → n < 2 ^ suc fuel → n / 2 < 2 ^ fuel
half_below n fuel h = omega (arith, pow-suc 2 fuel)

-- The rest of a turn, once the odd part is multiplied in.
pow_loop_rest :
    (fuel next accumulator remaining : ℕ)
    → yield_scale ≤ next
    → yield_scale ≤ accumulator
    → ((squared : ℕ)
        → yield_scale ≤ squared
        → 0 < remaining / 2
        → Answered (λ g. yield_scale ≤ g) (pow_loop fuel next squared (remaining / 2)))
    → Answered
        (λ g. yield_scale ≤ g)
        (if (remaining / 2) == 0
          then ok next
          else mul_factor accumulator accumulator >>= λ squared.
              pow_loop fuel next squared (remaining / 2))
pow_loop_rest fuel next accumulator remaining p q more =
    elim (Outcome-cases (mul_factor accumulator accumulator)) [
      | inl (squared, squares) ↦
          ground (arith, mul_factor-Answered accumulator accumulator q q, more squared)
      | inr fails ↦ ground (arith, mul_factor-Answered accumulator accumulator q q)
    ]

-- Below 2 ^ fuel the loop ends, with a factor of at least 1 where both factors were.
pow_loop-Answered :
    (fuel result accumulator remaining : ℕ)
    → yield_scale ≤ result
    → yield_scale ≤ accumulator
    → 0 < remaining
    → remaining < 2 ^ fuel
    → Answered (λ g. yield_scale ≤ g) (pow_loop fuel result accumulator remaining)
unfolding pow_loop
pow_loop-Answered zero result accumulator remaining p q some h = absurd (omega (arith, pow-zero 2))
pow_loop-Answered (suc fuel) result accumulator remaining p q some h =
    let odd = mul_factor-Answered result accumulator p q in
    elim (Outcome-cases
      (if (remaining % 2) == 1 then mul_factor result accumulator else ok result)) [
        | inl (next, multiplies) ↦
            let grown : yield_scale ≤ next = ground arith in
            ground (
              arith,
              pow_loop_rest fuel next accumulator remaining grown q (λ squared r some'.
                  pow_loop-Answered fuel next squared (remaining / 2) grown r some'
                    (half_below remaining fuel h)),
            )
        | inr fails ↦ ground arith
      ]

-- The turns are enough for every number of periods that is allowed.
periods_fit : (exponent : ℕ) → exponent ≤ max_compound_periods → exponent < 2 ^ pow_fuel
unfolding pow_fuel
periods_fit exponent h = omega arith

pow_factor-Answered :
    (base exponent : ℕ)
    → yield_scale ≤ base
    → Answered (λ g. yield_scale ≤ g) (pow_factor base exponent)
unfolding pow_factor validate_periods
pow_factor-Answered base exponent h = ground (
  arith,
  periods_fit exponent,
  pow_loop-Answered pow_fuel yield_scale base exponent (omega arith) h,
)

grow-Answered :
    (principal growth : ℕ)
    → yield_scale ≤ growth
    → Answered (λ total. principal ≤ total) (grow principal growth)
unfolding grow safe_mul_u128 safe_div_u128 to_u64
grow-Answered principal growth h =
    let kept : principal ≤ principal * growth / yield_scale =
      (le-div_iff_mul-le {k = yield_scale} (omega arith)).1 (mul-le-mul_left principal h) in
    ground arith

daily_growth_factor-Answered :
    (rate : ℕ) → Answered (λ g. yield_scale ≤ g) (daily_growth_factor rate)
unfolding daily_growth_factor validate_yield_rate safe_mul_u128 safe_div_u128
daily_growth_factor-Answered rate = ground arith

project_daily_compound-Answered :
    (principal rate days : ℕ)
    → Answered (λ total. principal ≤ total) (project_daily_compound principal rate days)
unfolding project_daily_compound validate_yield_rate validate_periods
project_daily_compound-Answered principal rate days =
    elim (Outcome-cases (daily_growth_factor rate)) [
      | inr fails ↦ ground (arith, daily_growth_factor-Answered rate)
      | inl (factor, factors) ↦
          let factor_fact = daily_growth_factor-Answered rate in
          let grown : yield_scale ≤ factor = ground arith in
          let power = pow_factor-Answered factor days grown in
          elim (Outcome-cases (pow_factor factor days)) [
            | inr fails ↦ ground arith
            | inl (growth, powers) ↦ ground (arith, grow-Answered principal growth)
          ]
    ]

-- A projection never traps and never shrinks its principal. So the projected interest fails only
-- where the projected balance does, with the same error, and is what the balance has gained.
pub project_daily_interest-project_daily_compound :
    (principal rate days : ℕ)
    → Answered (λ total. principal ≤ total) (project_daily_compound principal rate days)
      × (project_daily_interest principal rate days
          ≡ elim (project_daily_compound principal rate days) [
            | ok total ↦ ok (total - principal)
            | err e ↦ err e
            | trap ↦ trap
          ])
unfolding project_daily_interest safe_sub
project_daily_interest-project_daily_compound principal rate days =
    let fact = project_daily_compound-Answered principal rate days in (fact, ground arith)
