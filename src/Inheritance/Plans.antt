-- ===== src/Inheritance/Plans.antt =====
-- contracts/inheritance-contract/src/lib.rs: inheritance plans: their creation, their update, and the
-- deposits and withdrawals of their owners.
pub mod Funds
pub mod Funding
pub mod Creation
use xource_x.Prelude.{
  ℕ, ◌+◌, ◌-◌, ◌*◌, ◌/◌, Bool, true, false, not, ◌||◌, Option, none, some, List, [], ◌∷◌, ltb, leb,
  ◌==◌, if◌then◌else◌, is_some,
}
use xource_x.Prelude.Words.{u32_mod, u64_mod, checked_mul_u64, as_u64, mul_div_u128}
use xource_x.Prelude.Lists.{length, is_empty}
use xource_x.Prelude.Outcome.{◌>>=◌, ◌>>◌, pure, gets, modify, raise_if, panic_if, or_raise, unwrap}
use xource_x.Prelude.Dict.{update, or_default}
use xource_x.AccessControl.{Address, Role, assign_role}
use xource_x.Inheritance.Types.{
  Bytes, BeneficiaryInput, InheritancePlan, CreateInheritancePlanParams, GuardianConfig,
  invalid_asset_type, invalid_total_amount, missing_required_field, description_too_long,
  admin_not_set, insufficient_balance, fee_transfer_failed, insufficient_liquidity,
  too_many_emergency_contacts, invalid_guardian_threshold, emergency_cooldown_active,
  plan_not_active, plan_already_deactivated, invalid_beneficiary_data,
  inheritance_already_triggered, vault_lendable_changed, grace_period_updated, vault_deposit,
  vault_withdraw, waterfall_enabled, plan_deactivated, plan_ownership_transferred,
}
use xource_x.Inheritance.Store.{
  External, Ledger, Action, access_call, emit, require_auth, add_below, sub_or_trap, bytes_eq,
  enter_guard, exit_guard, check_not_paused, check_kyc_approved, increment_plan_id, get_plan,
  get_own_plan, store_plan, check_not_frozen, add_plan_to_user, add_plan_to_deactivated,
  assign_role_to_all,
}
use xource_x.Inheritance.Vaults.{
  outside, outside_ignored, deploy_plan_vault, require_plan_vault, release_from_plan_vault,
}
use xource_x.Inheritance.Beneficiaries.{validate_beneficiaries, create_beneficiaries}
use xource_x.Inheritance.Emergency.{is_emergency_active}
use xource_x.Inheritance.Triggers.{require_not_triggered}

abbrev pub creation_fee_bp : ℕ
creation_fee_bp = 200

abbrev pub emergency_transfer_limit_bp : ℕ
emergency_transfer_limit_bp = 1000

-- `Symbol::new(env, "USDC")`
abbrev pub usdc : Bytes
usdc = 85 ∷ 83 ∷ 68 ∷ 67 ∷ []

-- 2% of the amount, rounded down; a product past a u64 counts as 0.
unfoldable pub creation_fee : ℕ → ℕ
creation_fee total_amount = or_default 0 (checked_mul_u64 total_amount creation_fee_bp) / 10_000

-- A tenth of the plan's balance: what may leave a plan at once while its emergency access is fresh.
unfoldable pub emergency_limit : InheritancePlan → ℕ
emergency_limit plan = as_u64 (mul_div_u128 plan.total_amount emergency_transfer_limit_bp 10_000)

module _ {W : Type 0} where
  unfoldable pub validate_plan_inputs : Bytes → Bytes → Bytes → ℕ → Action W (Unit {0})
  validate_plan_inputs plan_name description asset_type total_amount = do
    raise_if (is_empty plan_name) missing_required_field
    raise_if (ltb 500 (length description)) description_too_long
    raise_if (not (bytes_eq asset_type usdc)) invalid_asset_type
    raise_if (total_amount == 0) invalid_total_amount

  -- `if Self::is_emergency_active(…) { … }` around the limit on an amount
  unfoldable pub check_emergency_limit : Ledger → ℕ → InheritancePlan → ℕ → Action W (Unit {0})
  check_emergency_limit l plan_id plan amount = do
    active ← is_emergency_active l plan_id
    if active
        then raise_if (ltb (emergency_limit plan) amount) emergency_cooldown_active
        else pure tt

  -- The guardians that are named at the creation of a plan, if any.
  unfoldable pub register_guardians : ℕ → List Address → ℕ → Action W (Unit {0})
  register_guardians plan_id [] threshold = pure tt
  register_guardians plan_id (g ∷ rest) threshold = do
    raise_if (ltb 5 (length (g ∷ rest))) too_many_emergency_contacts
    raise_if (threshold == 0 || ltb (length (g ∷ rest)) threshold) invalid_guardian_threshold
    let config : GuardianConfig = record { guardians = g ∷ rest; threshold = threshold }
    modify (λ s. record s { guardians = update plan_id (some config) s.guardians })
    assign_role_to_all (g ∷ rest) Role.guardian

module _ (x : External) where
  open x use {World}

  -- What `create_inheritance_plan` checks before it moves a token; it answers with the admin.
  unfoldable pub admit_plan : Ledger → CreateInheritancePlanParams → Action World Address
  admit_plan l params = do
    require_auth l params.owner
    check_not_paused
    enter_guard
    check_kyc_approved params.owner
    found ← gets (λ s. s.admin)
    admin ← or_raise found admin_not_set
    raise_if (ltb params.total_amount (creation_fee params.total_amount)) invalid_total_amount
    raise_if (params.total_amount - creation_fee params.total_amount == 0) invalid_total_amount
    validate_plan_inputs params.plan_name params.description usdc params.total_amount
    held ← gets (λ s. x.balance params.token params.owner s.world)
    balance ← unwrap held
    raise_if (ltb balance params.total_amount) insufficient_balance
    pure admin

  -- The fee goes to the admin, where that transfer succeeds; a vault is deployed under a new id and
  -- the rest goes to it.
  unfoldable pub fund_plan : Ledger → CreateInheritancePlanParams → Address → Action World ℕ
  fund_plan l params admin = do
    let fee = creation_fee params.total_amount
    if ltb 0 fee
        then outside_ignored x (x.transfer params.token params.owner admin fee)
        else pure tt
    plan_id ← increment_plan_id
    vault ← deploy_plan_vault x l plan_id params.owner
    outside x (x.transfer params.token params.owner vault (params.total_amount - fee))
        fee_transfer_failed
    pure plan_id

  -- The plan with its beneficiaries is stored and listed.
  unfoldable pub record_plan : Ledger → CreateInheritancePlanParams → ℕ → Action World (Unit {0})
  record_plan l params plan_id = do
    validate_beneficiaries params.beneficiaries_data
    made ← create_beneficiaries x plan_id 0 0 params.beneficiaries_data
    store_plan plan_id (record {
      plan_name = params.plan_name;
      description = params.description;
      token = params.token;
      asset_type = usdc;
      total_amount = params.total_amount - creation_fee params.total_amount;
      distribution_method = params.distribution_method;
      beneficiaries = made.0;
      total_allocation_bp = made.1;
      owner = params.owner;
      created_at = l.timestamp;
      is_active = true;
      is_lendable = params.is_lendable;
      total_loaned = 0;
      waterfall_enabled = false;
      grace_period = 0;
      earn_yield = false;
    })
    add_plan_to_user params.owner plan_id
    access_call (assign_role params.owner Role.owner)

  unfoldable pub create_inheritance_plan : Ledger → CreateInheritancePlanParams → Action World ℕ
  create_inheritance_plan l params = do
    admin ← admit_plan l params
    plan_id ← fund_plan l params admin
    record_plan l params plan_id
    register_guardians plan_id params.guardians params.guardian_threshold
    exit_guard
    pure plan_id

  unfoldable pub update_plan :
      Ledger → Address → ℕ → List BeneficiaryInput → ℕ → Bool → Action World (Unit {0})
  update_plan l owner plan_id beneficiaries grace_period earn_yield = do
    require_auth l owner
    check_not_paused
    enter_guard
    plan ← get_own_plan owner plan_id
    require_not_triggered plan_id
    validate_beneficiaries beneficiaries
    made ← create_beneficiaries x plan_id 0 0 beneficiaries
    store_plan plan_id (record plan {
      beneficiaries = made.0;
      total_allocation_bp = made.1;
      grace_period = grace_period;
      earn_yield = earn_yield;
    })
    exit_guard

  unfoldable pub deposit : Ledger → Address → Address → ℕ → ℕ → Action World (Unit {0})
  unfolding check_not_paused enter_guard exit_guard get_own_plan check_not_frozen require_plan_vault
      store_plan
  deposit l caller token plan_id amount = do
    require_auth l caller
    check_not_paused
    enter_guard
    raise_if (amount == 0) invalid_total_amount
    plan ← get_own_plan caller plan_id
    raise_if (not (plan.token == token)) invalid_asset_type
    raise_if (not plan.is_active) plan_not_active
    check_not_frozen plan_id
    held ← gets (λ s. x.balance token caller s.world)
    balance ← unwrap held
    raise_if (ltb balance amount) insufficient_balance
    vault ← require_plan_vault x plan_id
    outside x (x.transfer token caller vault amount) fee_transfer_failed
    total ← add_below u64_mod plan.total_amount amount
    store_plan plan_id (record plan { total_amount = total })
    emit (vault_deposit plan_id amount)
    exit_guard

  -- The source makes the emergency check twice in a row.
  unfoldable pub withdraw : Ledger → Address → Address → ℕ → ℕ → Action World (Unit {0})
  unfolding check_not_paused enter_guard exit_guard get_own_plan check_not_frozen
      release_from_plan_vault store_plan
  withdraw l caller token plan_id amount = do
    require_auth l caller
    check_not_paused
    enter_guard
    raise_if (amount == 0) invalid_total_amount
    plan ← get_own_plan caller plan_id
    raise_if (not (plan.token == token)) invalid_asset_type
    check_not_frozen plan_id
    check_emergency_limit l plan_id plan amount
    check_emergency_limit l plan_id plan amount
    raise_if (ltb (plan.total_amount - plan.total_loaned) amount) insufficient_liquidity
    release_from_plan_vault x plan_id token caller amount
    left ← sub_or_trap plan.total_amount amount
    store_plan plan_id (record plan { total_amount = left })
    emit (vault_withdraw plan_id amount)
    exit_guard
