-- ===== src/Lending/Math/Decimal.antt =====
-- contracts/lending-contract/src/lib.rs: `append_u64_to_bytes`, the decimal printer, and that it
-- prints every u64 within its buffer of 20 bytes.
use xource_x.Prelude.{
  ℕ, zero, suc, ◌+◌, ◌-◌, ◌*◌, ◌/◌, ◌%◌, ◌^◌, ◌≤◌, ◌<◌, ◌≡◌, ap, ◌∙◌, true, Option, none, some,
  List, [], ◌∷◌, ◌++◌, arith, ◌==◌, if◌then◌else◌, Bool-cases, inl, inr,
}
use native.Mathlib.Nat.{pow-suc}
use xource_x.Prelude.Words.{u64_mod}

-- The loop that fills the buffer from its end: `idx` bytes are free, and `tail` is what is filled.
-- `none` is the panic of an index that falls below 0.
unfoldable pub fill_digits : ℕ → ℕ → List ℕ → Option (List ℕ)
fill_digits zero remaining tail = if remaining == 0 then some tail else none
fill_digits (suc idx) remaining tail =
    let rest = fill_digits idx (remaining / 10) ((b'0' + remaining % 10) ∷ tail) in
    if remaining == 0 then some tail else rest

-- The bytes that `append_u64_to_bytes` puts behind `bytes`.
unfoldable pub append_u64_to_bytes : List ℕ → ℕ → Option (List ℕ)
append_u64_to_bytes bytes n =
    if n == 0
    then some (bytes ++ b'0' ∷ [])
    else elim (fill_digits 20 n []) [ some digits ↦ some (bytes ++ digits) | none ↦ none ]

-- The number that decimal digits stand for, read from the left.
unfoldable pub read_decimal : ℕ → List ℕ → ℕ
read_decimal acc [] = acc
read_decimal acc (d ∷ ds) = read_decimal (acc * 10 + (d - b'0')) ds

abbrev pub AllDigits : List ℕ → Type 0
AllDigits [] = Unit
AllDigits (d ∷ ds) = (b'0' ≤ d) × (d ≤ b'9') × AllDigits ds

-- What the loop has printed: digits that read back as the number before the tail.
record Printed (n : ℕ) (tail out : List ℕ) : Type 0 where
  reads : read_decimal 0 out ≡ read_decimal n tail
  digits : AllDigits out

zero_of : (n : ℕ) → (n == 0) ≡ true → n ≡ 0
zero_of n h = ground arith

tenth-lt : (n idx : ℕ) → n < 10 ^ suc idx → n / 10 < 10 ^ idx
tenth-lt n idx h = omega (arith, pow-suc 10 idx)

fill_digits-Printed :
    (idx n : ℕ) (tail : List ℕ)
    → n < 10 ^ idx
    → AllDigits tail
    → (out : List ℕ) × (fill_digits idx n tail ≡ some out) × Printed n tail out
unfolding fill_digits read_decimal
fill_digits-Printed zero n tail h d = (tail, ground arith, ground arith)
fill_digits-Printed (suc idx) n tail h d = elim (Bool-cases (n == 0)) [
  | inl done ↦ (tail, rw done, record { reads = rw (zero_of n done); digits = d })
  | inr more ↦
      let digit = b'0' + n % 10 in
      let (out, runs, p) =
        fill_digits-Printed idx (n / 10) (digit ∷ tail) (tenth-lt n idx h)
          (omega arith, omega arith, d) in
      (
        out,
        rw more runs,
        record {
          reads = p.reads ∙ ap (λ (k : ℕ). read_decimal k tail) (omega arith);
          digits = p.digits;
        },
      )
]

-- Every u64 is printed within the 20 bytes of the buffer, behind what was there, as decimal digits
-- that read back as the number.
pub append_u64_to_bytes-read_decimal :
    (bytes : List ℕ) (n : ℕ)
    → n < u64_mod
    → (digits : List ℕ) × (append_u64_to_bytes bytes n ≡ some (bytes ++ digits))
      × (read_decimal 0 digits ≡ n)
      × AllDigits digits
unfolding append_u64_to_bytes read_decimal
append_u64_to_bytes-read_decimal bytes n h = elim (Bool-cases (n == 0)) [
  | inl zero_n ↦ (b'0' ∷ [], rw zero_n, omega (arith, zero_of n zero_n), omega arith)
  | inr more ↦
      let (out, runs, p) = fill_digits-Printed 20 n [] (omega arith) tt in
      (out, rw (more, runs), p.reads, p.digits)
]
