-- ===== src/Inheritance/Triggers.antt =====
-- contracts/inheritance-contract/src/lib.rs: the conditions that trigger a plan's inheritance, the
-- trigger itself, and what becomes of the plan's loans after it.
pub mod Effects
pub mod Guardians
use xource_x.Prelude.{
  ℕ, ◌+◌, ◌-◌, Bool, true, false, not, ◌&&◌, ◌||◌, Option, none, some, List, [], ◌∷◌, ◌++◌, ltb,
  leb, ◌==◌, if◌then◌else◌, is_some,
}
use xource_x.Prelude.Words.{u64_mod}
use xource_x.Prelude.Lists.{length, contains}
use xource_x.Prelude.Outcome.{
  ok, err, trap, ◌>>=◌, ◌>>◌, pure, gets, modify, raise, raise_if, panic_if, or_raise,
}
use xource_x.Prelude.Dict.{or_default}
use xource_x.AccessControl.{Address}
use xource_x.Inheritance.Types.{
  InheritancePlan, InheritanceTriggerInfo, TriggerConfig, TriggerConditionType, manual, time,
  inactivity, oracle, health, EmergencyAccessRecord, missing_required_field, unauthorized,
  plan_not_found, plan_not_active, guardian_not_found, inheritance_already_triggered,
  inheritance_not_triggered, no_outstanding_loans, loan_recall_failed, trigger_condition_set,
  trigger_condition_met, inheritance_triggered, loan_frozen,
}
use xource_x.Inheritance.Store.{
  Ledger, Action, emit, require_auth, add_below, require_admin, enter_guard, exit_guard,
  check_not_paused, get_plan, get_own_plan, store_plan, check_not_frozen, set_trigger_info,
  save_trigger_config,
}
use xource_x.Inheritance.Emergency.{get_emergency_access}

abbrev pub condition_eq : TriggerConditionType → TriggerConditionType → Bool
condition_eq manual manual = true
condition_eq time time = true
condition_eq inactivity inactivity = true
condition_eq oracle oracle = true
condition_eq health health = true
condition_eq _ _ = false

unfoldable pub has_condition : TriggerConditionType → List TriggerConditionType → Bool
has_condition c [] = false
has_condition c (d ∷ rest) = condition_eq d c || has_condition c rest

-- Push the condition unless it is there.
unfoldable pub with_condition :
    TriggerConditionType → List TriggerConditionType → List TriggerConditionType
with_condition c conditions =
    if has_condition c conditions then conditions else conditions ++ c ∷ []

-- The configuration that a first `add_…_trigger` starts from.
abbrev pub no_conditions : Ledger → TriggerConfig
no_conditions l = record {
  conditions = [];
  trigger_date = 0;
  inactivity_period = 0;
  last_activity = l.timestamp;
  oracle_address = none;
  oracle_triggered = false;
  health_triggered = false;
}

-- Is this address stored?
abbrev pub is_address : Option Address → Address → Bool
is_address none who = false
is_address (some a) who = a == who

module _ {W : Type 0} where
  -- One turn of the loop in `check_trigger_conditions`; the sum traps past a u64.
  unfoldable pub condition_met : Ledger → TriggerConfig → TriggerConditionType → Action W Bool
  condition_met l config time =
      pure (ltb 0 config.trigger_date && leb config.trigger_date l.timestamp)
  condition_met l config inactivity =
      if ltb 0 config.inactivity_period && ltb 0 config.last_activity
      then (do
        deadline ← add_below u64_mod config.last_activity config.inactivity_period
        pure (leb deadline l.timestamp))
      else pure false
  condition_met l config oracle = pure config.oracle_triggered
  condition_met l config health = pure config.health_triggered
  condition_met l config manual = pure false

  unfoldable pub any_condition_met :
      Ledger → TriggerConfig → List TriggerConditionType → Action W Bool
  any_condition_met l config [] = pure false
  any_condition_met l config (c ∷ rest) = do
    met ← condition_met l config c
    elim met [ true ↦ pure true | false ↦ any_condition_met l config rest ]

  abbrev conditions_of : Ledger → Option TriggerConfig → Action W Bool
  conditions_of l none = pure false
  conditions_of l (some config) = any_condition_met l config config.conditions

  unfoldable pub check_trigger_conditions : Ledger → ℕ → Action W Bool
  check_trigger_conditions l plan_id = do
    found ← gets (λ s. s.trigger_configs plan_id)
    conditions_of l found

  abbrev pub get_trigger_config : ℕ → Action W TriggerConfig
  get_trigger_config plan_id = do
    found ← gets (λ s. s.trigger_configs plan_id)
    or_raise found plan_not_found

  -- The plan stops lending, and the trigger is recorded: the lines that every way of triggering ends
  -- with, less the events.
  unfoldable pub record_trigger : Ledger → ℕ → InheritancePlan → Action W (Unit {0})
  unfolding store_plan set_trigger_info
  record_trigger l plan_id plan = do
    store_plan plan_id (record plan { is_lendable = false })
    set_trigger_info plan_id (record {
      triggered_at = l.timestamp;
      loan_freeze_active = true;
      recall_attempted = false;
      liquidation_triggered = false;
      original_loaned = plan.total_loaned;
      recalled_amount = 0;
      settled_amount = 0;
    })

  abbrev pub require_not_triggered : ℕ → Action W (Unit {0})
  require_not_triggered plan_id = do
    info ← gets (λ s. s.triggers plan_id)
    raise_if (is_some info) inheritance_already_triggered

  -- The plan that a trigger needs: active, not frozen, not triggered yet.
  unfoldable pub get_triggerable_plan : ℕ → Action W InheritancePlan
  unfolding get_plan check_not_frozen
  get_triggerable_plan plan_id = do
    plan ← get_plan plan_id
    raise_if (not plan.is_active) plan_not_active
    check_not_frozen plan_id
    require_not_triggered plan_id
    pure plan

  -- The lines of `auto_trigger_check` after its two early returns.
  unfoldable pub trigger_now : Ledger → ℕ → Action W (Unit {0})
  unfolding get_plan record_trigger
  trigger_now l plan_id = do
    plan ← get_plan plan_id
    raise_if (not plan.is_active) plan_not_active
    record_trigger l plan_id plan
    emit (trigger_condition_met plan_id l.timestamp)
    emit (inheritance_triggered plan_id l.timestamp plan.total_loaned)

  unfoldable pub auto_trigger_check : Ledger → ℕ → Action W (Unit {0})
  auto_trigger_check l plan_id = do
    met ← check_trigger_conditions l plan_id
    info ← gets (λ s. s.triggers plan_id)
    elim (met && not (is_some info)) [ true ↦ trigger_now l plan_id | false ↦ pure tt ]

  -- `let _ = Self::auto_trigger_check(…)`: it writes nothing before it returns an error, which is
  -- ignored; a trap is not.
  unfoldable pub auto_trigger_ignored : Ledger → ℕ → Action W (Unit {0})
  auto_trigger_ignored l plan_id s = elim (auto_trigger_check l plan_id s) [
    | ok r ↦ ok r
    | err e ↦ ok (tt, s)
    | trap ↦ trap
  ]

  -- May `caller` trigger: the admin, the owner, or the contact whose emergency access is active?
  unfoldable pub authorize_trigger : Ledger → Address → ℕ → Action W (Unit {0})
  unfolding get_plan
  authorize_trigger l caller plan_id = do
    admin ← gets (λ s. s.admin)
    if is_address admin caller then require_auth l caller else (do
      plan ← get_plan plan_id
      if plan.owner == caller then require_auth l caller else (do
        access ← get_emergency_access l plan_id
        contact ← or_raise access unauthorized
        raise_if (not (contact.trusted_contact == caller)) unauthorized
        require_auth l caller))

  unfoldable pub trigger_inheritance : Ledger → Address → ℕ → Action W (Unit {0})
  unfolding check_not_paused enter_guard exit_guard record_trigger
  trigger_inheritance l caller plan_id = do
    check_not_paused
    enter_guard
    authorize_trigger l caller plan_id
    plan ← get_triggerable_plan plan_id
    record_trigger l plan_id plan
    emit (inheritance_triggered plan_id l.timestamp plan.total_loaned)
    emit (loan_frozen plan_id l.timestamp)
    exit_guard

  -- The loop over `signers`, from those that are approved already: a registered guardian that is not
  -- among them must authorise the call.
  unfoldable pub approving_guardians :
      Ledger → List Address → List Address → List Address → Action W (List Address)
  approving_guardians l guardians approved [] = pure approved
  approving_guardians l guardians approved (signer ∷ rest) =
      elim (contains guardians signer && not (contains approved signer)) [
        | true ↦ (do
          require_auth l signer
          approving_guardians l guardians (approved ++ signer ∷ []) rest)
        | false ↦ approving_guardians l guardians approved rest
      ]

  unfoldable pub guardian_emergency_trigger : Ledger → ℕ → List Address → Action W (Unit {0})
  unfolding check_not_paused enter_guard exit_guard record_trigger
  guardian_emergency_trigger l plan_id signers = do
    check_not_paused
    enter_guard
    found ← gets (λ s. s.guardians plan_id)
    config ← or_raise found guardian_not_found
    approved ← approving_guardians l config.guardians [] signers
    raise_if (ltb (length approved) config.threshold) unauthorized
    plan ← get_triggerable_plan plan_id
    record_trigger l plan_id plan
    emit (inheritance_triggered plan_id l.timestamp plan.total_loaned)
    emit (loan_frozen plan_id l.timestamp)
    exit_guard
