-- ===== src/Inheritance/Allocations.antt =====
-- contracts/inheritance-contract/src/lib.rs: the allocations of a plan's beneficiaries, and how they
-- add up under the changes of their list.
use xource_x.Prelude.{
  ℕ, zero, suc, ◌+◌, ◌-◌, ◌≤◌, ◌<◌, ◌≡◌, refl, some, List, [], ◌∷◌, ◌++◌, ◌==◌, arith, Bool-cases,
  inl, inr,
}
use xource_x.Prelude.Lists.{length, get_elem?, set, pop_back}
use xource_x.Prelude.Outcome.{ok}
use xource_x.Inheritance.Types.{Beneficiary, BeneficiaryInput}
use xource_x.Inheritance.Store.{Store}
use xource_x.Inheritance.Beneficiaries.{swap_remove, validate_each, validate_beneficiaries}

-- The sum of the allocations, in basis points.
unfoldable pub allocations : List Beneficiary → ℕ
allocations [] = 0
allocations (b ∷ rest) = b.allocation_bp + allocations rest

unfoldable pub asked_for : List BeneficiaryInput → ℕ
asked_for [] = 0
asked_for (b ∷ rest) = b.allocation_bp + asked_for rest

pub allocations-push :
    (xs : List Beneficiary) (b : Beneficiary)
    → allocations (xs ++ b ∷ []) ≡ allocations xs + b.allocation_bp
unfolding allocations
allocations-push [] b = omega arith
allocations-push (x ∷ xs) b = omega (arith, allocations-push xs b)

pub length-push {ℓ} : {A : Type ℓ} (xs : List A) (b : A) → length (xs ++ b ∷ []) ≡ length xs + 1
unfolding length
length-push [] b = omega arith
length-push (x ∷ xs) b = omega (arith, length-push xs b)

pub allocations-set :
    (xs : List Beneficiary) (i : ℕ) (b v : Beneficiary)
    → get_elem? xs i ≡ some b
    → allocations (set xs i v) + b.allocation_bp ≡ allocations xs + v.allocation_bp
unfolding allocations set get_elem?
allocations-set [] i b v h = cc
allocations-set (x ∷ xs) zero b v h = ground arith
allocations-set (x ∷ xs) (suc i) b v h = omega (arith, allocations-set xs i b v h)

pub length-set {ℓ} : {A : Type ℓ} (xs : List A) (i : ℕ) (v : A) → length (set xs i v) ≡ length xs
unfolding length set
length-set [] i v = refl
length-set (x ∷ xs) zero v = refl
length-set (x ∷ xs) (suc i) v = omega (arith, length-set xs i v)

get_elem?-set_last {ℓ} :
    {A : Type ℓ} (xs : List A) (i : ℕ) (v : A)
    → i < length xs - 1
    → get_elem? (set xs i v) (length xs - 1) ≡ get_elem? xs (length xs - 1)
unfolding length set get_elem?
get_elem?-set_last [] i v h = absurd (omega arith)
get_elem?-set_last (x ∷ []) i v h = absurd (omega arith)
get_elem?-set_last (x ∷ y ∷ xs) zero v h = ground arith
get_elem?-set_last (x ∷ y ∷ xs) (suc i) v h = ground (arith, get_elem?-set_last (y ∷ xs) i v)

pop_back_sum :
    (xs : List Beneficiary) (b : Beneficiary)
    → get_elem? xs (length xs - 1) ≡ some b
    → (allocations (pop_back xs) + b.allocation_bp ≡ allocations xs)
      × (length (pop_back xs) + 1 ≡ length xs)
unfolding allocations pop_back length get_elem?
pop_back_sum [] b h = absurd (ground arith)
pop_back_sum (x ∷ []) b h = ground arith
pop_back_sum (x ∷ y ∷ xs) b h = ground (arith, pop_back_sum (y ∷ xs) b)

get_elem?_lt {ℓ} :
    {A : Type ℓ} (xs : List A) (i : ℕ) (v : A) → get_elem? xs i ≡ some v → i < length xs
unfolding length get_elem?
get_elem?_lt [] i v h = absurd (ground arith)
get_elem?_lt (x ∷ xs) zero v h = omega arith
get_elem?_lt (x ∷ xs) (suc i) v h = omega (arith, get_elem?_lt xs i v h)

get_elem?_last {ℓ} :
    {A : Type ℓ} (xs : List A) → 0 < length xs → (v : A) × (get_elem? xs (length xs - 1) ≡ some v)
unfolding length get_elem?
get_elem?_last [] h = absurd (omega arith)
get_elem?_last (x ∷ []) h = (x, refl)
get_elem?_last (x ∷ y ∷ xs) h =
    let (v, e) = get_elem?_last (y ∷ xs) (omega arith) in (v, ground (arith, e))

-- A removal takes one beneficiary and its allocation off.
pub swap_remove_sum :
    (xs : List Beneficiary) (i : ℕ) (b : Beneficiary)
    → get_elem? xs i ≡ some b
    → (allocations (swap_remove xs i) + b.allocation_bp ≡ allocations xs)
      × (length (swap_remove xs i) + 1 ≡ length xs)
unfolding swap_remove
swap_remove_sum xs i b h =
    let below = get_elem?_lt xs i b h in
    let (m, e) = get_elem?_last xs (omega arith) in
    elim (Bool-cases (i == length xs - 1)) [
      | inl same ↦ let (s, n) = pop_back_sum xs m e in ground (arith, e, s, n, same)
      | inr other ↦
          let (s, n) =
            pop_back_sum (set xs i m) m
              (ground (arith, get_elem?-set_last xs i m, length-set xs i m)) in
          ground (arith, e, s, n, other, allocations-set xs i b m h, length-set xs i m)
    ]

module _ {W : Type 0} where
  -- What a successful check of the beneficiaries' data means.
  validate_each-sum :
      (bs : List BeneficiaryInput) (emails : List (List ℕ)) (ps : List ℕ) (total : ℕ)
      (s t : Store W)
      → validate_each bs emails ps total s ≡ ok (tt, t)
      → (total + asked_for bs ≡ 10_000) × (t ≡ s)
  unfolding validate_each asked_for
  validate_each-sum [] emails ps total s t h = ground arith
  validate_each-sum (b ∷ bs) emails ps total s t h = ground (
    arith,
    validate_each-sum bs (emails ++ b.email ∷ []) (ps ++ b.priority ∷ []) (total + b.allocation_bp)
        s t,
  )

  pub validate_beneficiaries-sum :
      (bs : List BeneficiaryInput) (s t : Store W)
      → validate_beneficiaries bs s ≡ ok (tt, t)
      → (asked_for bs ≡ 10_000) × (length bs ≤ 10) × (t ≡ s)
  unfolding validate_beneficiaries
  validate_beneficiaries-sum bs s t h = ground (arith, validate_each-sum bs [] [] 0 s t)
