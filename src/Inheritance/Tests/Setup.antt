-- ===== src/Inheritance/Tests/Setup.antt =====
-- A store with one plan, for two beneficiaries, over a host whose hash is the identity.
use xource_x.Prelude.{ℕ, ◌+◌, true, false, none, some, [], ◌∷◌, ◌==◌}
use xource_x.Prelude.Outcome.{Outcome, ok, err, trap}
use xource_x.AccessControl.{Role, empty_access}
use xource_x.Inheritance.Types.{
  Beneficiary, BeneficiaryInput, InheritancePlan, lump_sum, KycStatus, CreateInheritancePlanParams,
}
use xource_x.Inheritance.Store.{External, Ledger, Store}
use xource_x.Inheritance.Plans.{usdc}

-- Every token and vault accepts every call; a salt is one byte, another at each draw.
abbrev pub host : External
host = record {
  World = ℕ;
  transfer = λ token from to amount w. some w;
  balance = λ token id w. some 1_000_000;
  deploy = λ wasm plan_id w. some (1000 + plan_id, w);
  initialize = λ vault controller owner plan_id w. some w;
  release = λ vault token recipient amount w. some w;
  sha256 = λ b. b;
  gen = λ w. (w ∷ [], w + 1);
}

abbrev pub ledger : Ledger
ledger = record { timestamp = 5000; authorized = λ a. true; contract_id = 100 }

-- The codes are 123456 and 654321, the salts 0 and 1.
abbrev pub first_heir : Beneficiary
first_heir = record {
  hashed_full_name = 65 ∷ [];
  hashed_email = 65 ∷ [];
  hashed_claim_code = 0 ∷ 49 ∷ 50 ∷ 51 ∷ 52 ∷ 53 ∷ 54 ∷ [];
  bank_account = 9 ∷ [];
  allocation_bp = 6000;
  priority = 1;
  is_claimed = false;
}

abbrev pub second_heir : Beneficiary
second_heir = record {
  hashed_full_name = 66 ∷ [];
  hashed_email = 66 ∷ [];
  hashed_claim_code = 1 ∷ 54 ∷ 53 ∷ 52 ∷ 51 ∷ 50 ∷ 49 ∷ [];
  bank_account = 9 ∷ [];
  allocation_bp = 4000;
  priority = 2;
  is_claimed = false;
}

-- The plan of user 1, in token 9.
abbrev pub plan : InheritancePlan
plan = record {
  plan_name = 80 ∷ [];
  description = [];
  token = 9;
  asset_type = usdc;
  total_amount = 9800;
  distribution_method = lump_sum;
  beneficiaries = first_heir ∷ second_heir ∷ [];
  total_allocation_bp = 10_000;
  owner = 1;
  created_at = 1000;
  is_active = true;
  is_lendable = true;
  total_loaned = 0;
  waterfall_enabled = false;
  grace_period = 0;
  earn_yield = false;
}

abbrev pub approved : KycStatus
approved = record {
  submitted = true;
  approved = true;
  rejected = false;
  submitted_at = 1;
  approved_at = 2;
  rejected_at = 0;
}

-- User 7 is the admin; users 4, 5 and 6 are the plan's guardians, of whom two must agree.
abbrev pub store : Store host.World
store = record {
  next_plan_id = some 2;
  plans = λ i. elim (i == 1) [ true ↦ some plan | false ↦ none ];
  claims = λ k. none;
  salts = λ i j. elim (i == 1) [
    | true ↦ elim (j == 0) [ true ↦ some (0 ∷ []) | false ↦ some (1 ∷ []) ]
    | false ↦ none
  ];
  claim_attempts = λ i a. none;
  user_plans = λ a. elim (a == 1) [ true ↦ 1 ∷ [] | false ↦ [] ];
  user_claimed = λ a. [];
  deactivated_plans = [];
  all_claimed = [];
  admin = some 7;
  kyc = λ a. some approved;
  triggers = λ i. none;
  emergency_access = λ i. none;
  guardians = λ i. some (record { guardians = 4 ∷ 5 ∷ 6 ∷ []; threshold = 2 });
  emergency_approvals = λ i a. [];
  emergency_contacts = λ i. [];
  freezes = λ i. none;
  legal_holds = λ i. none;
  frozen_beneficiaries = λ i j. false;
  trigger_configs = λ i. none;
  exit_settlements = λ i j. none;
  next_dispute_id = none;
  disputes = λ i. none;
  plan_disputes = λ i. [];
  arbitrators = [];
  plan_vaults = λ i. elim (i == 1) [ true ↦ some 1001 | false ↦ none ];
  vault_wasm = some (1 ∷ []);
  access = record empty_access {
    roles = λ a. elim (a == 7) [ true ↦ Role.admin ∷ [] | false ↦ [] ];
  };
  events = [];
  world = 5;
}

abbrev pub heir_input : BeneficiaryInput
heir_input = record {
  name = 67 ∷ [];
  email = 67 ∷ [];
  claim_code = 42;
  bank_account = 9 ∷ [];
  allocation_bp = 10_000;
  priority = 1;
}

abbrev pub params : CreateInheritancePlanParams
params = record {
  owner = 2;
  token = 9;
  plan_name = 80 ∷ [];
  description = [];
  total_amount = 10_000;
  distribution_method = lump_sum;
  beneficiaries_data = heir_input ∷ [];
  is_lendable = false;
  guardians = 4 ∷ [];
  guardian_threshold = 1;
}

-- The store that a call leaves, where it succeeds.
abbrev pub after :
    {E A : Type 0} → Store host.World → Outcome E (A × Store host.World) → Store host.World
after s (ok r) = r.1
after s (err e) = s
after s trap = s
