-- ===== src/Inheritance/Beneficiaries.antt =====
-- contracts/inheritance-contract/src/lib.rs: the beneficiaries of a plan: how their data is checked
-- and hashed, and how they are added, removed and ranked.
pub mod Removal
use xource_x.Prelude.{
  ℕ, ◌+◌, ◌-◌, Bool, true, false, not, ◌&&◌, ◌||◌, Option, none, some, List, [], ◌∷◌, ◌++◌, ltb,
  leb, ◌==◌, if◌then◌else◌,
}
use xource_x.Prelude.Words.{u32_mod, checked_add_u32, saturating_add_u32}
use xource_x.Prelude.Lists.{length, is_empty, get_elem?, set, pop_back, contains}
use xource_x.Prelude.Outcome.{◌>>=◌, ◌>>◌, pure, gets, modify, raise_if, panic_if, or_raise, unwrap}
use xource_x.Prelude.Dict.{update}
use xource_x.AccessControl.{Address}
use xource_x.Inheritance.Types.{
  Bytes, Beneficiary, BeneficiaryInput, InheritancePlan, missing_required_field,
  too_many_beneficiaries, allocation_percentage_mismatch, invalid_beneficiary_data,
  invalid_beneficiary_index, invalid_allocation, beneficiary_added, beneficiary_removed,
  priority_set,
}
use xource_x.Inheritance.Store.{
  External, Ledger, Store, Action, bytes_eq, emit, require_auth, add_below, sub_or_trap,
  reject_blacklisted, check_not_paused, enter_guard, exit_guard, get_plan, get_own_plan, store_plan,
}
use xource_x.Inheritance.Hashing.{hash_string, hash_claim_code_with_salt, generate_claim_salt}

-- `emails.contains(&email)`
unfoldable pub contains_bytes : List Bytes → Bytes → Bool
contains_bytes [] b = false
contains_bytes (a ∷ rest) b = bytes_eq a b || contains_bytes rest b

-- Remove the element at an index that is in range: the last one takes its place.
unfoldable pub swap_remove {ℓ} : {A : Type ℓ} → List A → ℕ → List A
swap_remove xs index =
    let last_index = length xs - 1 in
    elim (get_elem? xs last_index) [
      | none ↦ xs
      | some moved ↦ pop_back (if index == last_index then xs else set xs index moved)
    ]

-- The loop `for i in 0..len { if i != beneficiary_index { … } }`: does another beneficiary have the
-- priority? `i` is the index of the first.
unfoldable pub priority_taken : ℕ → ℕ → ℕ → List Beneficiary → Bool
priority_taken i index priority [] = false
priority_taken i index priority (b ∷ rest) =
    not (i == index) && (b.priority == priority) || priority_taken (i + 1) index priority rest

module _ {W : Type 0} where
  -- The loop of `validate_beneficiaries`, with what it has seen, and the test after it.
  unfoldable pub validate_each :
      List BeneficiaryInput → List Bytes → List ℕ → ℕ → Action W (Unit {0})
  validate_each [] emails priorities total_allocation =
      raise_if (not (total_allocation == 10_000)) allocation_percentage_mismatch
  validate_each (b ∷ rest) emails priorities total_allocation = do
    raise_if (is_empty b.name) invalid_beneficiary_data
    raise_if (contains_bytes emails b.email) invalid_beneficiary_data
    sum ← or_raise (checked_add_u32 total_allocation b.allocation_bp) allocation_percentage_mismatch
    raise_if (b.priority == 0) invalid_beneficiary_data
    raise_if (contains priorities b.priority) invalid_beneficiary_data
    validate_each rest (emails ++ b.email ∷ []) (priorities ++ b.priority ∷ []) sum

  unfoldable pub validate_beneficiaries : List BeneficiaryInput → Action W (Unit {0})
  validate_beneficiaries beneficiaries_data = do
    raise_if (ltb 10 (length beneficiaries_data)) too_many_beneficiaries
    raise_if (is_empty beneficiaries_data) missing_required_field
    validate_each beneficiaries_data [] [] 0

  unfoldable pub remove_beneficiary : Ledger → Address → ℕ → ℕ → Action W (Unit {0})
  unfolding check_not_paused enter_guard exit_guard get_own_plan store_plan
  remove_beneficiary l owner plan_id index = do
    require_auth l owner
    check_not_paused
    enter_guard
    plan ← get_own_plan owner plan_id
    raise_if (leb (length plan.beneficiaries) index) invalid_beneficiary_index
    removed ← unwrap (get_elem? plan.beneficiaries index)
    left ← sub_or_trap plan.total_allocation_bp removed.allocation_bp
    store_plan plan_id (record plan {
      beneficiaries = swap_remove plan.beneficiaries index;
      total_allocation_bp = left;
    })
    emit (beneficiary_removed plan_id index removed.allocation_bp)
    exit_guard

  unfoldable pub set_beneficiary_priority : Ledger → Address → ℕ → ℕ → ℕ → Action W (Unit {0})
  unfolding get_own_plan store_plan
  set_beneficiary_priority l owner plan_id beneficiary_index priority = do
    require_auth l owner
    plan ← get_own_plan owner plan_id
    raise_if (leb (length plan.beneficiaries) beneficiary_index) invalid_beneficiary_index
    raise_if (priority == 0) invalid_beneficiary_data
    raise_if (priority_taken 0 beneficiary_index priority plan.beneficiaries)
        invalid_beneficiary_data
    beneficiary ← unwrap (get_elem? plan.beneficiaries beneficiary_index)
    store_plan plan_id (record plan {
      beneficiaries =
          set plan.beneficiaries beneficiary_index (record beneficiary { priority = priority });
    })
    emit (priority_set plan_id beneficiary_index priority)

  unfoldable pub get_beneficiary_priority : ℕ → ℕ → Action W ℕ
  unfolding get_plan
  get_beneficiary_priority plan_id beneficiary_index = do
    plan ← get_plan plan_id
    raise_if (leb (length plan.beneficiaries) beneficiary_index) invalid_beneficiary_index
    beneficiary ← unwrap (get_elem? plan.beneficiaries beneficiary_index)
    pure beneficiary.priority

module _ (x : External) where
  open x use {World}

  -- The salt is drawn and stored before the claim code is checked.
  unfoldable pub create_beneficiary : ℕ → ℕ → BeneficiaryInput → Action World Beneficiary
  unfolding generate_claim_salt hash_claim_code_with_salt hash_string
  create_beneficiary plan_id beneficiary_index input = do
    raise_if (is_empty input.name || is_empty input.email || is_empty input.bank_account)
        invalid_beneficiary_data
    raise_if (input.allocation_bp == 0) invalid_allocation
    salt ← generate_claim_salt x
    modify (λ s. record s {
      salts = update plan_id (update beneficiary_index (some salt) (s.salts plan_id)) s.salts;
    })
    hashed_claim_code ← hash_claim_code_with_salt x input.claim_code salt
    hashed_full_name ← hash_string x input.name
    hashed_email ← hash_string x input.email
    pure (record {
      hashed_full_name = hashed_full_name;
      hashed_email = hashed_email;
      hashed_claim_code = hashed_claim_code;
      bank_account = input.bank_account;
      allocation_bp = input.allocation_bp;
      priority = input.priority;
      is_claimed = false;
    })

  -- The loop over `beneficiaries_data`: the beneficiaries from index `idx` on, and the sum of the
  -- allocations.
  unfoldable pub create_beneficiaries :
      ℕ → ℕ → ℕ → List BeneficiaryInput → Action World (List Beneficiary × ℕ)
  create_beneficiaries plan_id idx total [] = pure ([], total)
  create_beneficiaries plan_id idx total (b ∷ rest) = do
    beneficiary ← create_beneficiary plan_id idx b
    sum ← add_below u32_mod total b.allocation_bp
    made ← create_beneficiaries plan_id (saturating_add_u32 idx 1) sum rest
    pure (beneficiary ∷ made.0, made.1)

  unfoldable pub add_beneficiary : Ledger → Address → ℕ → BeneficiaryInput → Action World (Unit {0})
  unfolding reject_blacklisted check_not_paused enter_guard exit_guard get_own_plan store_plan
  add_beneficiary l owner plan_id input = do
    require_auth l owner
    reject_blacklisted owner
    check_not_paused
    enter_guard
    plan ← get_own_plan owner plan_id
    raise_if (leb 10 (length plan.beneficiaries)) too_many_beneficiaries
    raise_if (input.allocation_bp == 0) invalid_allocation
    new_total ← add_below u32_mod plan.total_allocation_bp input.allocation_bp
    raise_if (ltb 10_000 new_total) allocation_percentage_mismatch
    beneficiary ← create_beneficiary plan_id (length plan.beneficiaries) input
    store_plan plan_id (record plan {
      beneficiaries = plan.beneficiaries ++ beneficiary ∷ [];
      total_allocation_bp = new_total;
    })
    emit (beneficiary_added plan_id beneficiary.hashed_email input.allocation_bp)
    exit_guard
