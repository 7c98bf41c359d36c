-- ===== src/SafeMath/Powers.antt =====
-- Powers and rounded products, for exponentiation by squaring.
use xource_x.Prelude.{ℕ, zero, suc, ◌+◌, ◌*◌, ◌/◌, ◌^◌, ◌≤◌, ◌<◌, ◌≡◌, refl, ap, ◌∙◌, arith}
use native.Mathlib.Nat.{
  pow-suc, pow-zero, mul-le-mul_left, mul-le-mul_right, mul-le-mul, pow-le-pow_left,
}

pub mul-pow : (a b k : ℕ) → (a * b) ^ k ≡ a ^ k * b ^ k
mul-pow a b zero = rw (pow-zero (a * b), pow-zero a, pow-zero b) refl
mul-pow a b (suc k) = rw (pow-suc (a * b) k, pow-suc a k, pow-suc b k, mul-pow a b k) (omega arith)

pub pow-double : (a k : ℕ) → a ^ (k + k) ≡ a ^ k * a ^ k
pow-double a zero = rw (pow-zero a) refl
pow-double a (suc k) =
    let even : suc k + suc k ≡ suc (suc (k + k)) = omega arith in
    ap (λ (i : ℕ). a ^ i) even
    ∙ rw (pow-suc a (suc (k + k)), pow-suc a (k + k), pow-suc a k, pow-double a k) (omega arith)

-- The square, rounded down at the scale `s`, in place of the exact one.
pub square_step :
    (out r a a' s k : ℕ)
    → a' * s ≤ a * a
    → out * s ^ k ≤ r * a' ^ k
    → out * s ^ (k + k) ≤ r * a ^ (k + k)
square_step out r a a' s k h p =
    let scaled : out * s ^ k * s ^ k ≤ r * a' ^ k * s ^ k = mul-le-mul_right (s ^ k) p in
    let exact : (a' * s) ^ k ≤ (a * a) ^ k = pow-le-pow_left h k in
    let bound : r * (a' ^ k * s ^ k) ≤ r * (a ^ k * a ^ k) =
      mul-le-mul_left r (rw (← mul-pow a' s k, ← mul-pow a a k) exact) in
    rw (pow-double s k, pow-double a k) (omega (arith, scaled, bound))

-- The factor of an odd exponent, rounded down too.
pub odd_step :
    (out r r' a s k : ℕ)
    → r' * s ≤ r * a
    → out * s ^ k ≤ r' * a ^ k
    → out * s ^ suc k ≤ r * a ^ suc k
odd_step out r r' a s k h p =
    let scaled : out * s ^ k * s ≤ r' * a ^ k * s = mul-le-mul_right s p in
    let bound : r' * s * a ^ k ≤ r * a * a ^ k = mul-le-mul_right (a ^ k) h in
    rw (pow-suc s k, pow-suc a k) (omega (arith, scaled, bound))

-- A product of two factors that are at least the scale is at least the scale, rounded down.
pub scale-le-div : (a b s : ℕ) → 0 < s → s ≤ a → s ≤ b → s ≤ a * b / s
scale-le-div a b s h p q = grind (arith, mul-le-mul p q)
