-- ===== src/SafeMath/Compound.antt =====
-- contracts/inheritance-contract/src/safe_math.rs: compounding never runs out of its loop, never
-- takes from the principal, and never pays more than exact compounding would.
use xource_x.Prelude.{
  ℕ, zero, suc, ◌+◌, ◌*◌, ◌/◌, ◌%◌, ◌^◌, ◌≤◌, ◌<◌, ◌≡◌, refl, sym, subst, Bool-cases, inl, inr,
  true, false, ltb, ◌==◌, if◌then◌else◌, arith,
}
use xource_x.Prelude.Int.{ℤ, pos, ◌*ℤ◌, tdiv}
use xource_x.Prelude.Outcome.{ok, err, trap}
use native.Mathlib.Nat.{div-mul-le_self, pow-zero, pow-suc}
use xource_x.Prelude.Words.{u64_mod}
use xource_x.SafeMath.Powers.{square_step, odd_step, scale-le-div}
use xource_x.SafeMath.{
  math_overflow, Checked, yield_scale, safe_mul, safe_div, mul_div, pow_loop, square_or_break,
  pow_factor,
}

-- On amounts that are not negative `mul_div` is the rounded-down quotient, or an overflow.
pub mul_div-pos :
    (a b d : ℕ)
    → 0 < d
    → mul_div (pos a) (pos b) (pos d)
      ≡ (if ltb (a * b) (2 ^ 127) then ok (pos (a * b / d)) else err math_overflow)
unfolding mul_div safe_mul safe_div ◌*ℤ◌ tdiv
mul_div-pos a b d h = ground arith

-- What a run of the loop that starts with `r` and `a` at the exponent `e` ends in.
abbrev pub Powered : (e r a : ℕ) → Checked ℤ → Type 0
Powered e r a (ok z) =
    (g : ℕ) × (z ≡ pos g)
    × (g * yield_scale ^ e ≤ r * a ^ e)
    × (yield_scale ≤ r → yield_scale ≤ a → yield_scale ≤ g)
Powered e r a (err e') = e' ≡ math_overflow
Powered e r a trap = ⊥

squared : (a : ℕ) → a * a / yield_scale * yield_scale ≤ a * a
squared a = div-mul-le_self (a * a) yield_scale

-- What one turn of the loop makes of what the next turns end in, for an even and an odd exponent.
Powered-even :
    (k r a : ℕ) (o : Checked ℤ) → Powered k r (a * a / yield_scale) o → Powered (k + k) r a o
Powered-even k r a (ok z) (g, same, most, least) = (
  g,
  same,
  square_step g r a (a * a / yield_scale) yield_scale k (squared a) most,
  λ p q. least p (scale-le-div a a yield_scale (omega arith) q q),
)
Powered-even k r a (err e) h = h
Powered-even k r a trap h = h

Powered-odd :
    (k r a : ℕ) (o : Checked ℤ)
    → Powered (k + k) (r * a / yield_scale) a o
    → Powered (suc (k + k)) r a o
Powered-odd k r a (ok z) (g, same, most, least) = (
  g,
  same,
  odd_step g r (r * a / yield_scale) a yield_scale (k + k) (div-mul-le_self (r * a) yield_scale)
      most,
  λ p q. least (scale-le-div r a yield_scale (omega arith) p q) q,
)
Powered-odd k r a (err e) h = h
Powered-odd k r a trap h = h

Powered-start : (r a : ℕ) → Powered 0 r a (ok (pos r))
Powered-start r a = (r, refl, rw (pow-zero yield_scale, pow-zero a) (omega arith), λ p q. p)

is_zero : (k : ℕ) → (k == 0) ≡ true → 0 ≡ k
is_zero k h = ground arith

-- One turn, by its tests.
module _ (next : ℤ → Checked ℤ) (k r a : ℕ) where
  square_or_break-break : (k == 0) ≡ true → square_or_break next k (pos r) (pos a) ≡ ok (pos r)
  unfolding square_or_break
  square_or_break-break done = ground arith

  square_or_break-next :
      (k == 0) ≡ false
      → square_or_break next k (pos r) (pos a)
        ≡ (if ltb (a * a) (2 ^ 127) then next (pos (a * a / yield_scale)) else err math_overflow)
  unfolding square_or_break
  square_or_break-next more = ground (arith, mul_div-pos a a yield_scale)

  -- The turn after the multiplication: the loop is done, or the factor is squared.
  Powered-square :
      ((a' : ℕ) → (k == 0) ≡ false → Powered k r a' (next (pos a')))
      → Powered (k + k) r a (square_or_break next k (pos r) (pos a))
  Powered-square turn = elim (Bool-cases (k == 0)) [
    | inl done ↦
        subst (Powered (k + k) r a) (sym (square_or_break-break done))
          (subst (λ (i : ℕ). Powered (i + i) r a (ok (pos r))) (is_zero k done) (Powered-start r a))
    | inr more ↦
        subst (Powered (k + k) r a) (sym (square_or_break-next more))
          (elim (Bool-cases (ltb (a * a) (2 ^ 127))) [
            | inl fits ↦ rw fits (
                Powered-even k r a (next (pos (a * a / yield_scale)))
                  (turn (a * a / yield_scale) more))
            | inr over ↦ rw over refl
          ])
  ]

half-lt : (fuel e : ℕ) → e < 2 ^ suc fuel → (e / 2 == 0) ≡ false → (0 < fuel) × (e / 2 < 2 ^ fuel)
half-lt zero e h more = absurd (ground (arith, pow-suc 2 zero, pow-zero 2))
half-lt (suc fuel) e h more = (omega arith, omega (arith, pow-suc 2 (suc fuel)))

even_lem : (e : ℕ) → (e % 2 == 1) ≡ false → e / 2 + e / 2 ≡ e
even_lem e h = ground arith

odd_lem : (e : ℕ) → (e % 2 == 1) ≡ true → suc (e / 2 + e / 2) ≡ e
odd_lem e h = ground arith

module _ (fuel e r a : ℕ) where
  -- The turn that follows, from a result.
  abbrev rest : ℕ → Checked ℤ
  rest r' = square_or_break (λ acc. pow_loop fuel (e / 2) (pos r') acc) (e / 2) (pos r') (pos a)

  pow_loop-even : (e % 2 == 1) ≡ false → pow_loop (suc fuel) e (pos r) (pos a) ≡ rest r
  unfolding pow_loop
  pow_loop-even even = rw even refl

  pow_loop-odd :
      (e % 2 == 1) ≡ true
      → pow_loop (suc fuel) e (pos r) (pos a)
        ≡ (if ltb (r * a) (2 ^ 127) then rest (r * a / yield_scale) else err math_overflow)
  unfolding pow_loop
  pow_loop-odd odd =
      rw (odd, mul_div-pos r a yield_scale (omega arith))
        (elim (Bool-cases (ltb (r * a) (2 ^ 127))) [
          | inl fits ↦ rw fits refl
          | inr over ↦ rw over refl
        ])

-- With as many turns as the exponent has bits, the loop ends.
pow_loop-Powered :
    (fuel e r a : ℕ) → 0 < fuel → e < 2 ^ fuel → Powered e r a (pow_loop fuel e (pos r) (pos a))
pow_loop-Powered zero e r a some_fuel h = absurd (omega arith)
pow_loop-Powered (suc fuel) e r a some_fuel h =
    let turn : (r' : ℕ) → Powered (e / 2 + e / 2) r' a (rest fuel e r a r') = λ r'.
      Powered-square (λ acc. pow_loop fuel (e / 2) (pos r') acc) (e / 2) r' a
        (λ a' more.
          let (positive, half) = half-lt fuel e h more in
          pow_loop-Powered fuel (e / 2) r' a' positive half) in
    elim (Bool-cases (e % 2 == 1)) [
      | inl odd ↦
          subst (Powered e r a) (sym (pow_loop-odd fuel e r a odd))
            (elim (Bool-cases (ltb (r * a) (2 ^ 127))) [
              | inl fits ↦ rw fits (
                  subst (λ (i : ℕ). Powered i r a (rest fuel e r a (r * a / yield_scale)))
                    (odd_lem e odd)
                    (Powered-odd (e / 2) r a (rest fuel e r a (r * a / yield_scale))
                      (turn (r * a / yield_scale))))
              | inr over ↦ rw over refl
            ])
      | inr even ↦
          subst (Powered e r a) (sym (pow_loop-even fuel e r a even))
            (subst (λ (i : ℕ). Powered i r a (rest fuel e r a r)) (even_lem e even) (turn r))
    ]

-- Raising a factor that is not negative to a u64 power ends, in the power or in an overflow. The
-- result is never above the exact power, at the same scale, and for a factor of at least 1 it is at
-- least 1.
pub pow_factor-Powered :
    (base exp : ℕ) → exp < u64_mod → Powered exp yield_scale base (pow_factor (pos base) exp)
unfolding pow_factor
pow_factor-Powered base exp h = pow_loop-Powered 64 exp yield_scale base (omega arith) h
