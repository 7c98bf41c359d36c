-- ===== src/Inheritance/Emergency.antt =====
-- contracts/inheritance-contract/src/lib.rs: emergency access to a plan: trusted contacts, guardians
-- and their approvals.
pub mod Expiry
use xource_x.Prelude.{
  ℕ, ◌+◌, ◌-◌, Bool, true, false, not, ◌||◌, Option, none, some, List, [], ◌∷◌, ◌++◌, ltb, leb,
  ◌==◌, if◌then◌else◌, is_some,
}
use xource_x.Prelude.Words.{u64_mod}
use xource_x.Prelude.Lists.{length, contains}
use xource_x.Prelude.Outcome.{◌>>=◌, ◌>>◌, pure, gets, modify, raise_if, panic_if, or_raise}
use xource_x.Prelude.Dict.{update}
use xource_x.AccessControl.{Address, Role, require_role}
use xource_x.Inheritance.Types.{
  InheritancePlan, EmergencyAccessRecord, GuardianConfig, unauthorized, guardian_not_found,
  emergency_access_already_active, invalid_guardian_threshold, emergency_contact_already_exists,
  too_many_emergency_contacts, emergency_contact_not_found, already_approved,
  emergency_access_activated, emergency_access_approved, emergency_access_revoked,
  emergency_access_expired, emergency_contact_added, emergency_contact_removed,
}
use xource_x.Inheritance.Store.{
  Ledger, Action, access_call, emit, require_auth, add_below, get_plan, get_own_plan,
  assign_role_to_all,
}
use xource_x.Inheritance.Beneficiaries.{swap_remove}

-- 7 days
abbrev pub emergency_expiration_period : ℕ
emergency_expiration_period = 604_800

-- 24 hours
abbrev pub emergency_cooldown_period : ℕ
emergency_cooldown_period = 86_400

-- The search loop of `remove_emergency_contact`, from the index of the first contact on.
unfoldable pub index_of : ℕ → Address → List Address → Option ℕ
index_of i contact [] = none
index_of i contact (c ∷ rest) = if c == contact then some i else index_of (i + 1) contact rest

-- Was the access activated less than 24 hours ago?
abbrev pub in_cooldown : ℕ → Option EmergencyAccessRecord → Bool
in_cooldown now none = false
in_cooldown now (some r) = ltb (now - r.activated_at) emergency_cooldown_period

module _ {W : Type 0} where
  -- The access of a plan, which ends 7 days after its activation: is it still there?
  unfoldable pub expire_access : Ledger → ℕ → Option EmergencyAccessRecord → Action W Bool
  expire_access l plan_id none = pure false
  expire_access l plan_id (some r) = do
    expiry ← add_below u64_mod r.activated_at emergency_expiration_period
    if ltb expiry l.timestamp
        then (do
          modify (λ s. record s { emergency_access = update plan_id none s.emergency_access })
          emit (emergency_access_expired plan_id l.timestamp)
          pure false)
        else pure true

  unfoldable pub check_and_expire_emergency_access : Ledger → ℕ → Action W Bool
  check_and_expire_emergency_access l plan_id = do
    found ← gets (λ s. s.emergency_access plan_id)
    expire_access l plan_id found

  unfoldable pub get_emergency_access : Ledger → ℕ → Action W (Option EmergencyAccessRecord)
  get_emergency_access l plan_id = do
    active ← check_and_expire_emergency_access l plan_id
    if active then gets (λ s. s.emergency_access plan_id) else pure none

  unfoldable pub is_emergency_active : Ledger → ℕ → Action W Bool
  is_emergency_active l plan_id = do
    active ← check_and_expire_emergency_access l plan_id
    if active then gets (λ s. in_cooldown l.timestamp (s.emergency_access plan_id)) else pure false

  unfoldable pub activate_access : Ledger → ℕ → Address → Action W (Unit {0})
  activate_access l plan_id trusted_contact = do
    let access : EmergencyAccessRecord = record {
      plan_id = plan_id;
      trusted_contact = trusted_contact;
      activated_at = l.timestamp;
    }
    modify (λ s. record s { emergency_access = update plan_id (some access) s.emergency_access })
    emit (emergency_access_activated plan_id trusted_contact l.timestamp)

  unfoldable pub activate_emergency_access : Ledger → Address → ℕ → Address → Action W (Unit {0})
  activate_emergency_access l owner plan_id trusted_contact = do
    check_and_expire_emergency_access l plan_id
    require_auth l owner
    get_own_plan owner plan_id
    active ← gets (λ s. s.emergency_access plan_id)
    raise_if (is_some active) emergency_access_already_active
    activate_access l plan_id trusted_contact

  unfoldable pub deactivate_emergency_access : Ledger → Address → ℕ → Action W (Unit {0})
  deactivate_emergency_access l owner plan_id = do
    require_auth l owner
    get_own_plan owner plan_id
    active ← gets (λ s. s.emergency_access plan_id)
    if is_some active
        then (do
          modify (λ s. record s { emergency_access = update plan_id none s.emergency_access })
          emit (emergency_access_revoked plan_id l.timestamp))
        else pure tt

  unfoldable pub set_guardians : Ledger → Address → ℕ → List Address → ℕ → Action W (Unit {0})
  set_guardians l owner plan_id guardians threshold = do
    require_auth l owner
    get_own_plan owner plan_id
    raise_if (threshold == 0 || ltb (length guardians) threshold) invalid_guardian_threshold
    let config : GuardianConfig = record { guardians = guardians; threshold = threshold }
    modify (λ s. record s { guardians = update plan_id (some config) s.guardians })
    assign_role_to_all guardians Role.guardian

  unfoldable pub approve_emergency_access : Ledger → Address → ℕ → Address → Action W (Unit {0})
  approve_emergency_access l guardian plan_id trusted_contact = do
    check_and_expire_emergency_access l plan_id
    require_auth l guardian
    access_call (require_role guardian Role.guardian unauthorized)
    get_plan plan_id
    active ← gets (λ s. s.emergency_access plan_id)
    raise_if (is_some active) emergency_access_already_active
    found ← gets (λ s. s.guardians plan_id)
    config ← or_raise found guardian_not_found
    raise_if (not (contains config.guardians guardian)) unauthorized
    before ← gets (λ s. s.emergency_approvals plan_id trusted_contact)
    raise_if (contains before guardian) already_approved
    let approvals = before ++ guardian ∷ []
    modify (λ s. record s {
      emergency_approvals =
          update plan_id (update trusted_contact approvals (s.emergency_approvals plan_id))
            s.emergency_approvals;
    })
    emit (emergency_access_approved plan_id trusted_contact guardian (length approvals))
    if leb config.threshold (length approvals)
        then activate_access l plan_id trusted_contact
        else pure tt

  unfoldable pub add_emergency_contact : Ledger → Address → ℕ → Address → Action W (Unit {0})
  add_emergency_contact l owner plan_id contact = do
    require_auth l owner
    get_own_plan owner plan_id
    contacts ← gets (λ s. s.emergency_contacts plan_id)
    raise_if (contains contacts contact) emergency_contact_already_exists
    raise_if (leb 10 (length contacts)) too_many_emergency_contacts
    modify (λ s. record s {
      emergency_contacts = update plan_id (contacts ++ contact ∷ []) s.emergency_contacts;
    })
    emit (emergency_contact_added plan_id contact)

  unfoldable pub remove_emergency_contact : Ledger → Address → ℕ → Address → Action W (Unit {0})
  remove_emergency_contact l owner plan_id contact = do
    require_auth l owner
    get_own_plan owner plan_id
    contacts ← gets (λ s. s.emergency_contacts plan_id)
    index ← or_raise (index_of 0 contact contacts) emergency_contact_not_found
    modify (λ s. record s {
      emergency_contacts = update plan_id (swap_remove contacts index) s.emergency_contacts;
    })
    emit (emergency_contact_removed plan_id contact)
