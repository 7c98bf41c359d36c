-- ===== src/Prelude/Words.antt =====
-- Rust's unsigned machine integers as native numbers: `as` casts, and checked and saturating
-- operations, with the wrap-around and the bounds written out.
use mathlib.Core.Option.{Option, none, some}
use Prim.Native.Nat.{ℕ, ◌+◌, ◌-◌, ◌*◌, ◌/◌, ◌%◌, ◌^◌, ◌<◌, ◌≤◌, min}
use mathlib.Core.Path.{◌≡◌}
use native.Mathlib.Nat.{div-mul-le_self, le_trans, mul-le-mul_right, mod-le}
use native.Mathlib.Omega.{arith}
use xource_x.Prelude.Tests.{ltb, ◌==◌, if◌then◌else◌}

abbrev pub u32_mod : ℕ
u32_mod = 2 ^ 32

abbrev pub u64_mod : ℕ
u64_mod = 2 ^ 64

abbrev pub u128_mod : ℕ
u128_mod = 2 ^ 128

-- `x as u32`, `x as u64`
abbrev pub as_u32 : ℕ → ℕ
as_u32 x = x % u32_mod

abbrev pub as_u64 : ℕ → ℕ
as_u64 x = x % u64_mod

-- `u32::checked_add`, `u64::checked_add`, `u128::checked_mul`
abbrev pub checked_add_u32 : ℕ → ℕ → Option ℕ
checked_add_u32 a b = if ltb (a + b) u32_mod then some (a + b) else none

abbrev pub checked_add_u64 : ℕ → ℕ → Option ℕ
checked_add_u64 a b = if ltb (a + b) u64_mod then some (a + b) else none

abbrev pub checked_mul_u64 : ℕ → ℕ → Option ℕ
checked_mul_u64 a b = if ltb (a * b) u64_mod then some (a * b) else none

abbrev pub checked_mul_u128 : ℕ → ℕ → Option ℕ
checked_mul_u128 a b = if ltb (a * b) u128_mod then some (a * b) else none

-- `u32::saturating_add`, `u64::saturating_add`; `saturating_sub` is the truncated subtraction.
abbrev pub saturating_add_u32 : ℕ → ℕ → ℕ
saturating_add_u32 a b = min (a + b) (u32_mod - 1)

abbrev pub saturating_add_u64 : ℕ → ℕ → ℕ
saturating_add_u64 a b = min (a + b) (u64_mod - 1)

-- `(a as u128).checked_mul(b).and_then(|v| v.checked_div(d)).unwrap_or(0)`
unfoldable pub mul_div_u128 : ℕ → ℕ → ℕ → ℕ
mul_div_u128 a b d = if ltb (a * b) u128_mod then (if d == 0 then 0 else a * b / d) else 0

-- Below 2 ^ 128 the product is exact, so only the division rounds.
pub mul_div_u128_lem : (a b d : ℕ) → 0 < d → a * b < u128_mod → mul_div_u128 a b d ≡ a * b / d
unfolding mul_div_u128
mul_div_u128_lem a b d h p = ground arith

-- The division rounds down, and an overflow counts as 0.
pub mul_div_u128-le : (a b d : ℕ) → mul_div_u128 a b d * d ≤ a * b
unfolding mul_div_u128
mul_div_u128-le a b d = ground (arith, div-mul-le_self (a * b) d)

pub as_u64-mul-le : (x d n : ℕ) → x * d ≤ n → as_u64 x * d ≤ n
as_u64-mul-le x d n h = le_trans (mul-le-mul_right d (mod-le x u64_mod)) h
