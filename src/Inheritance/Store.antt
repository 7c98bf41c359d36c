-- ===== src/Inheritance/Store.antt =====
-- contracts/inheritance-contract/src/lib.rs: the contract's storage, one field for each key of
-- `DataKey` that is modelled, what a call sees of the host, and the private getters, setters and
-- guards.
use xource_x.Prelude.{
  ℕ, ◌+◌, ◌-◌, Bool, true, false, not, ◌&&◌, Option, some, List, [], ◌∷◌, ◌++◌, ltb, ◌==◌,
  if◌then◌else◌, is_some, ◌≡◌, refl, arith,
}
use xource_x.Prelude.Words.{u64_mod}
use xource_x.Prelude.Lists.{contains}
use xource_x.Prelude.Outcome.{
  ok, err, trap, Contract, ◌>>=◌, ◌>>◌, pure, gets, modify, raise_if, panic_if, or_raise,
}
use xource_x.Prelude.Dict.{update, or_default}
use xource_x.AccessControl.{
  Address, Role, AccessStore, reentrancy_enter_or_panic, reentrancy_exit,
  require_not_paused_or_panic, require_role, require_not_blacklisted, assign_role,
}
use xource_x.Inheritance.Types.{
  Bytes, InheritancePlan, InheritanceError, plan_not_found, plan_not_active, unauthorized,
  not_admin, kyc_not_submitted, blk, ClaimRecord, ClaimAttemptWindow, KycStatus,
  InheritanceTriggerInfo, EmergencyAccessRecord, GuardianConfig, FreezeRecord, LegalHold,
  TriggerConfig, DisputeRecord, Event,
}

-- The host and the contracts that a call reaches by address. `World` is all that they store; a call
-- of one that fails is `none`.
pub record External : Type 1 where
  pub World : Type 0
  -- `transfer` and `balance` of the token at the first address; a negative balance counts as 0
  pub transfer : Address → Address → Address → ℕ → World → Option World
  pub balance : Address → Address → World → Option ℕ
  -- `deploy` of a plan vault from a wasm hash, for the salt of a plan's id
  pub deploy : Bytes → ℕ → World → Option (Address × World)
  -- `initialize` (controller, owner, plan id) and `release` (token, recipient, amount) of the vault
  -- at the first address
  pub initialize : Address → Address → Address → ℕ → World → Option World
  pub release : Address → Address → Address → ℕ → World → Option World
  -- `env.crypto().sha256` and `env.prng().gen`
  pub sha256 : Bytes → Bytes
  pub gen : World → Bytes × World

-- What `env` gives to a call: the time, the addresses that authorised it, the contract's own.
pub record Ledger : Type 0 where
  pub timestamp : ℕ
  pub authorized : Address → Bool
  pub contract_id : Address

-- A list or flag that is absent reads as empty or false.
pub record Store (World : Type 0) : Type 0 where
  pub next_plan_id : Option ℕ
  pub plans : ℕ → Option InheritancePlan
  pub claims : Bytes → Option ClaimRecord
  -- by plan and beneficiary index
  pub salts : ℕ → ℕ → Option Bytes
  pub claim_attempts : ℕ → Address → Option ClaimAttemptWindow
  pub user_plans : Address → List ℕ
  pub user_claimed : Address → List ℕ
  pub deactivated_plans : List ℕ
  pub all_claimed : List ℕ
  pub admin : Option Address
  pub kyc : Address → Option KycStatus
  pub triggers : ℕ → Option InheritanceTriggerInfo
  pub emergency_access : ℕ → Option EmergencyAccessRecord
  pub guardians : ℕ → Option GuardianConfig
  pub emergency_approvals : ℕ → Address → List Address
  pub emergency_contacts : ℕ → List Address
  pub freezes : ℕ → Option FreezeRecord
  pub legal_holds : ℕ → Option LegalHold
  -- by plan and beneficiary index
  pub frozen_beneficiaries : ℕ → ℕ → Bool
  pub trigger_configs : ℕ → Option TriggerConfig
  pub exit_settlements : ℕ → ℕ → Option ℕ
  pub next_dispute_id : Option ℕ
  pub disputes : ℕ → Option DisputeRecord
  pub plan_disputes : ℕ → List ℕ
  pub arbitrators : List Address
  pub plan_vaults : ℕ → Option Address
  pub vault_wasm : Option Bytes
  pub access : AccessStore
  pub events : List Event
  pub world : World

-- An entry point or helper of the contract, where everything outside stores a `W`.
abbrev pub Action : Type 0 → Type 0 → Type 0
Action W = Contract (Store W) InheritanceError

-- `==` of `BytesN` and `String`
unfoldable pub bytes_eq : Bytes → Bytes → Bool
bytes_eq [] [] = true
bytes_eq (a ∷ rest) (b ∷ other) = (a == b) && bytes_eq rest other
bytes_eq _ _ = false

pub bytes_eq_self : (b : Bytes) → bytes_eq b b ≡ true
unfolding bytes_eq
bytes_eq_self [] = refl
bytes_eq_self (a ∷ rest) = ground (arith, bytes_eq_self rest)

abbrev pub update_bytes {ℓ} : {A : Type ℓ} → Bytes → A → (Bytes → A) → Bytes → A
update_bytes k v m j = if bytes_eq k j then v else m j

module _ {W : Type 0} where
  -- A call of the access-control library on this contract's keys.
  abbrev pub access_call : {A : Type 0} → Contract AccessStore InheritanceError A → Action W A
  access_call m s = elim (m s.access) [
    | ok r ↦ ok (r.0, record s { access = r.1 })
    | err e ↦ err e
    | trap ↦ trap
  ]

  abbrev pub emit : Event → Action W (Unit {0})
  emit e = modify (λ s. record s { events = e ∷ s.events })

  -- `address.require_auth()`
  abbrev pub require_auth : Ledger → Address → Action W (Unit {0})
  require_auth l a = panic_if (not (l.authorized a))

  -- `a + b` and `a - b` on u64 or below: an overflow traps (overflow-checks in
  -- contracts/Cargo.toml).
  abbrev pub add_below : ℕ → ℕ → ℕ → Action W ℕ
  add_below bound a b = do panic_if (not (ltb (a + b) bound)); pure (a + b)

  abbrev pub sub_or_trap : ℕ → ℕ → Action W ℕ
  sub_or_trap a b = do panic_if (ltb a b); pure (a - b)

  unfoldable pub reject_blacklisted : Address → Action W (Unit {0})
  unfolding require_not_blacklisted
  reject_blacklisted address = access_call (require_not_blacklisted address blk)

  unfoldable pub require_admin : Ledger → Address → Action W (Unit {0})
  unfolding reject_blacklisted require_role
  require_admin l caller = do
    require_auth l caller
    reject_blacklisted caller
    access_call (require_role caller Role.admin not_admin)

  unfoldable pub enter_guard : Action W (Unit {0})
  unfolding reentrancy_enter_or_panic
  enter_guard = access_call reentrancy_enter_or_panic

  unfoldable pub exit_guard : Action W (Unit {0})
  unfolding reentrancy_exit
  exit_guard = access_call reentrancy_exit

  unfoldable pub check_not_paused : Action W (Unit {0})
  unfolding require_not_paused_or_panic
  check_not_paused = access_call require_not_paused_or_panic

  unfoldable pub check_kyc_approved : Address → Action W (Unit {0})
  check_kyc_approved user = do
    found ← gets (λ s. s.kyc user)
    status ← or_raise found kyc_not_submitted
    raise_if (not status.approved) kyc_not_submitted

  -- Returns the id that is next, and stores its successor.
  unfoldable pub increment_plan_id : Action W ℕ
  increment_plan_id = do
    current ← gets (λ s. or_default 1 s.next_plan_id)
    following ← add_below u64_mod current 1
    modify (λ s. record s { next_plan_id = some following })
    pure current

  -- `get_plan(…).ok_or(PlanNotFound)?`
  unfoldable pub get_plan : ℕ → Action W InheritancePlan
  get_plan plan_id = do found ← gets (λ s. s.plans plan_id); or_raise found plan_not_found

  -- The plan, which `who` must own.
  unfoldable pub get_own_plan : Address → ℕ → Action W InheritancePlan
  unfolding get_plan
  get_own_plan who plan_id = do
    plan ← get_plan plan_id
    raise_if (not (plan.owner == who)) unauthorized
    pure plan

  unfoldable pub store_plan : ℕ → InheritancePlan → Action W (Unit {0})
  store_plan plan_id plan = modify (λ s. record s { plans = update plan_id (some plan) s.plans })

  unfoldable pub check_not_frozen : ℕ → Action W (Unit {0})
  check_not_frozen plan_id = do
    freeze ← gets (λ s. s.freezes plan_id)
    raise_if (is_some freeze) plan_not_active
    hold ← gets (λ s. s.legal_holds plan_id)
    raise_if (is_some hold) plan_not_active

  unfoldable pub set_trigger_info : ℕ → InheritanceTriggerInfo → Action W (Unit {0})
  set_trigger_info plan_id info =
      modify (λ s. record s { triggers = update plan_id (some info) s.triggers })

  unfoldable pub save_trigger_config : ℕ → TriggerConfig → Action W (Unit {0})
  save_trigger_config plan_id config =
      modify (λ s. record s { trigger_configs = update plan_id (some config) s.trigger_configs })

  unfoldable pub add_plan_to_user : Address → ℕ → Action W (Unit {0})
  add_plan_to_user owner plan_id = modify (λ s. record s {
    user_plans = update owner (s.user_plans owner ++ plan_id ∷ []) s.user_plans;
  })

-- `if !plans.contains(plan_id) { plans.push_back(plan_id); }`
unfoldable pub listed_once : ℕ → List ℕ → List ℕ
listed_once plan_id plans = if contains plans plan_id then plans else plans ++ plan_id ∷ []

module _ {W : Type 0} where
  unfoldable pub add_plan_to_deactivated : ℕ → Action W (Unit {0})
  add_plan_to_deactivated plan_id =
      modify (λ s. record s { deactivated_plans = listed_once plan_id s.deactivated_plans })

  unfoldable pub add_plan_to_claimed : Address → ℕ → Action W (Unit {0})
  add_plan_to_claimed owner plan_id = modify (λ s. record s {
    user_claimed = update owner (listed_once plan_id (s.user_claimed owner)) s.user_claimed;
    all_claimed = listed_once plan_id s.all_claimed;
  })

  -- `for g in guardians.iter() { assign_role(g, role) }`
  unfoldable pub assign_role_to_all : List Address → Role → Action W (Unit {0})
  assign_role_to_all [] role = pure tt
  assign_role_to_all (a ∷ rest) role = do
    access_call (assign_role a role)
    assign_role_to_all rest role
