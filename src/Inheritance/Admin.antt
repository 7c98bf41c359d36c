-- ===== src/Inheritance/Admin.antt =====
-- contracts/inheritance-contract/src/lib.rs: the admin, the pause switch, roles, the blacklist and
-- the KYC status of users.
pub mod Kyc
use xource_x.Prelude.{ℕ, true, false, not, Option, none, some, is_some}
use xource_x.Prelude.Outcome.{◌>>=◌, ◌>>◌, gets, modify, raise_if, panic_if, or_raise}
use xource_x.Prelude.Dict.{update, or_default}
use xource_x.AccessControl
use xource_x.AccessControl.{Address, Role, pause_contract, unpause_contract, set_contract_version}
use xource_x.Inheritance.Types.{
  Bytes, KycStatus, admin_already_initialized, kyc_not_submitted, kyc_already_rejected,
  already_approved, paused, unpaused, kyc_approved, kyc_rejected,
}
use xource_x.Inheritance.Store.{
  Ledger, Action, access_call, emit, require_auth, reject_blacklisted, require_admin,
}

abbrev pub no_kyc : KycStatus
no_kyc = record {
  submitted = false;
  approved = false;
  rejected = false;
  submitted_at = 0;
  approved_at = 0;
  rejected_at = 0;
}

-- `access_control::CONTRACT_VERSION`
abbrev contract_version : ℕ
contract_version = 1

module _ {W : Type 0} where
  unfoldable pub pause : Ledger → Address → Action W (Unit {0})
  pause l admin = do require_admin l admin; access_call pause_contract; emit (paused l.timestamp)

  unfoldable pub unpause : Ledger → Address → Action W (Unit {0})
  unpause l admin = do
    require_admin l admin
    access_call unpause_contract
    emit (unpaused l.timestamp)

  unfoldable pub initialize_admin : Ledger → Address → Action W (Unit {0})
  initialize_admin l admin = do
    require_auth l admin
    reject_blacklisted admin
    found ← gets (λ s. s.admin)
    raise_if (is_some found) admin_already_initialized
    modify (λ s. record s { admin = some admin })
    access_call (set_contract_version contract_version)
    access_call (AccessControl.assign_role admin Role.admin)

  unfoldable pub assign_role : Ledger → Address → Address → Role → Action W (Unit {0})
  assign_role l admin address role = do
    require_admin l admin
    reject_blacklisted address
    access_call (AccessControl.assign_role address role)

  unfoldable pub revoke_role : Ledger → Address → Address → Role → Action W (Unit {0})
  revoke_role l admin address role = do
    require_admin l admin
    access_call (AccessControl.revoke_role address role)

  unfoldable pub blacklist_address : Ledger → Address → Address → Action W (Unit {0})
  blacklist_address l admin target = do
    require_admin l admin
    access_call (AccessControl.blacklist_address target)

  unfoldable pub unblacklist_address : Ledger → Address → Address → Action W (Unit {0})
  unblacklist_address l admin target = do
    require_admin l admin
    access_call (AccessControl.unblacklist_address target)

  unfoldable pub set_plan_vault_wasm_hash : Ledger → Address → Bytes → Action W (Unit {0})
  set_plan_vault_wasm_hash l admin wasm_hash = do
    require_admin l admin
    modify (λ s. record s { vault_wasm = some wasm_hash })

  abbrev set_kyc : Address → KycStatus → Action W (Unit {0})
  set_kyc user status = modify (λ s. record s { kyc = update user (some status) s.kyc })

  unfoldable pub submit_kyc : Ledger → Address → Action W (Unit {0})
  unfolding reject_blacklisted
  submit_kyc l user = do
    require_auth l user
    reject_blacklisted user
    status ← gets (λ s. or_default no_kyc (s.kyc user))
    raise_if status.approved already_approved
    set_kyc user (record status { submitted = true; submitted_at = l.timestamp })

  unfoldable pub approve_kyc : Ledger → Address → Address → Action W (Unit {0})
  unfolding require_admin reject_blacklisted
  approve_kyc l admin user = do
    require_admin l admin
    reject_blacklisted user
    found ← gets (λ s. s.kyc user)
    status ← or_raise found kyc_not_submitted
    raise_if (not status.submitted) kyc_not_submitted
    raise_if status.approved already_approved
    set_kyc user (record status { approved = true; approved_at = l.timestamp })
    emit (kyc_approved user l.timestamp)

  unfoldable pub reject_kyc : Ledger → Address → Address → Action W (Unit {0})
  unfolding require_admin reject_blacklisted
  reject_kyc l admin user = do
    require_admin l admin
    reject_blacklisted user
    found ← gets (λ s. s.kyc user)
    status ← or_raise found kyc_not_submitted
    raise_if (not status.submitted) kyc_not_submitted
    raise_if status.rejected kyc_already_rejected
    set_kyc user (record status { rejected = true; rejected_at = l.timestamp })
    emit (kyc_rejected user l.timestamp)
