-- ===== src/SafeMath/Yield.antt =====
-- contracts/inheritance-contract/src/safe_math.rs: compounding never takes from the principal.
use xource_x.Prelude.{
  ℕ, ◌+◌, ◌-◌, ◌*◌, ◌/◌, ◌≤◌, ◌<◌, ◌^◌, ◌≡◌, refl, sym, subst, Bool-cases, inl, inr, ◌||◌, ltb,
  ◌==◌, if◌then◌else◌, arith,
}
use native.Mathlib.Nat.{le-div_iff_mul-le, mul-le-mul_left}
use xource_x.Prelude.Words.{u32_mod, u64_mod}
use xource_x.Prelude.Int.{ℤ, pos, ◌*ℤ◌, ◌+ℤ◌, ◌-ℤ◌, tdiv}
use xource_x.Prelude.Outcome.{ok, err, trap}
use xource_x.SafeMath.{
  math_overflow, Checked, ◌>>=◌, yield_scale, seconds_per_day, safe_add, safe_sub, safe_mul,
  safe_div, mul_div, pow_factor, compound_yield, accrued_interest,
}
use xource_x.SafeMath.Compound.{Powered, mul_div-pos, pow_factor-Powered}

-- An amount of at least `p`, or an overflow.
abbrev pub Grown : (p : ℕ) → Checked ℤ → Type 0
Grown p (ok z) = (g : ℕ) × (z ≡ pos g) × (p ≤ g)
Grown p (err e) = e ≡ math_overflow
Grown p trap = ⊥

le-scaled : (p g : ℕ) → yield_scale ≤ g → p ≤ p * g / yield_scale
le-scaled p g h =
    (le-div_iff_mul-le {k = yield_scale} {x = p} {y = p * g} (omega arith)).1 (mul-le-mul_left p h)

mul_div-Grown : (p g : ℕ) → yield_scale ≤ g → Grown p (mul_div (pos p) (pos g) (pos yield_scale))
mul_div-Grown p g h =
    subst (Grown p) (sym (mul_div-pos p g yield_scale (omega arith)))
      (elim (Bool-cases (ltb (p * g) (2 ^ 127))) [
        | inl fits ↦ rw fits (p * g / yield_scale, refl, le-scaled p g h)
        | inr over ↦ rw over refl
      ])

-- The principal times what the growth factor has become.
Powered-Grown :
    (p e f : ℕ) (o : Checked ℤ)
    → yield_scale ≤ f
    → Powered e yield_scale f o
    → Grown p (o >>= λ growth. mul_div (pos p) growth (pos yield_scale))
Powered-Grown p e f (ok z) least (g, same, most, at_least) =
    rw same (mul_div-Grown p g (at_least (omega arith) least))
Powered-Grown p e f (err e') least h = h
Powered-Grown p e f trap least h = h

-- The steps before the power, for a u32 rate.
compound_yield-eq :
    (p rate secs : ℕ)
    → rate < u32_mod
    → compound_yield (pos p) rate secs ≡ (
        if (p == 0) || (rate == 0) || (secs / seconds_per_day == 0)
        then ok (pos p)
        else (pow_factor
              (pos (yield_scale + rate * yield_scale / 3_650_000))
              (secs / seconds_per_day)
            >>= λ growth. mul_div (pos p) growth (pos yield_scale)))
unfolding compound_yield safe_mul safe_div safe_add ◌*ℤ◌ ◌+ℤ◌ tdiv
compound_yield-eq p rate secs h = ground arith

-- Compounding an amount that is not negative, at a u32 rate for a u64 time, ends in an amount that
-- is at least the principal, or in an overflow error, and never in a trap.
pub compound_yield-Grown :
    (p rate secs : ℕ) → rate < u32_mod → secs < u64_mod → Grown p (compound_yield (pos p) rate secs)
compound_yield-Grown p rate secs hr hs =
    subst (Grown p) (sym (compound_yield-eq p rate secs hr))
      (elim (Bool-cases ((p == 0) || (rate == 0) || (secs / seconds_per_day == 0))) [
        | inl idle ↦ rw idle (p, refl, omega arith)
        | inr grows ↦ rw grows (
            Powered-Grown p (secs / seconds_per_day) (yield_scale + rate * yield_scale / 3_650_000)
              (pow_factor (pos (yield_scale + rate * yield_scale / 3_650_000))
                (secs / seconds_per_day))
              (omega arith)
              (pow_factor-Powered (yield_scale + rate * yield_scale / 3_650_000)
                (secs / seconds_per_day) (omega arith)))
      ])

safe_sub-pos :
    (g p : ℕ)
    → p ≤ g
    → safe_sub (pos g) (pos p)
      ≡ (if ltb (g - p) (2 ^ 127) then ok (pos (g - p)) else err math_overflow)
unfolding safe_sub ◌-ℤ◌
safe_sub-pos g p h = ground arith

safe_sub-Grown :
    (p : ℕ) (o : Checked ℤ) → Grown p o → Grown 0 (o >>= λ total. safe_sub total (pos p))
safe_sub-Grown p (ok z) (g, same, least) =
    rw (same, safe_sub-pos g p least)
      (elim (Bool-cases (ltb (g - p) (2 ^ 127))) [
        | inl fits ↦ rw fits (g - p, refl, omega arith)
        | inr over ↦ rw over refl
      ])
safe_sub-Grown p (err e) h = h
safe_sub-Grown p trap h = h

-- The accrued interest is never negative.
pub accrued_interest-Grown :
    (p rate secs : ℕ)
    → rate < u32_mod
    → secs < u64_mod
    → Grown 0 (accrued_interest (pos p) rate secs)
unfolding accrued_interest
accrued_interest-Grown p rate secs hr hs =
    safe_sub-Grown p (compound_yield (pos p) rate secs) (compound_yield-Grown p rate secs hr hs)
