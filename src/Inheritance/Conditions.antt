-- ===== src/Inheritance/Conditions.antt =====
-- contracts/inheritance-contract/src/lib.rs: how an owner configures the conditions that trigger a
-- plan, and what the owner and the oracle report.
use xource_x.Prelude.{ℕ, true, false, not, ◌&&◌, Option, some, List, ◌==◌, if◌then◌else◌, is_some}
use xource_x.Prelude.Lists.{length}
use xource_x.Prelude.Outcome.{◌>>=◌, ◌>>◌, gets, raise_if}
use xource_x.Prelude.Dict.{or_default}
use xource_x.AccessControl.{Address}
use xource_x.Inheritance.Types.{
  TriggerConfig, TriggerConditionType, missing_required_field, unauthorized, trigger_condition_set,
}
use xource_x.Inheritance.Store.{
  Ledger, Action, emit, require_auth, get_own_plan, save_trigger_config,
}
use xource_x.Inheritance.Triggers.{
  has_condition, with_condition, no_conditions, is_address, get_trigger_config,
  require_not_triggered,
}

module _ {W : Type 0} where
  unfoldable pub set_trigger_conditions :
      Ledger
      → Address
      → ℕ
      → List TriggerConditionType
      → ℕ
      → ℕ
      → Option Address
      → Action W (Unit {0})
  set_trigger_conditions l owner plan_id conditions trigger_date inactivity_period oracle_address =
      do
        require_auth l owner
        get_own_plan owner plan_id
        require_not_triggered plan_id
        raise_if
            (has_condition TriggerConditionType.oracle conditions && not (is_some oracle_address))
            missing_required_field
        save_trigger_config plan_id (record {
          conditions = conditions;
          trigger_date = trigger_date;
          inactivity_period = inactivity_period;
          last_activity = l.timestamp;
          oracle_address = oracle_address;
          oracle_triggered = false;
          health_triggered = false;
        })
        emit (trigger_condition_set plan_id (length conditions))

  -- `get_trigger_config(…).unwrap_or(…)`
  abbrev config_or_new : Ledger → ℕ → Action W TriggerConfig
  config_or_new l plan_id = gets (λ s. or_default (no_conditions l) (s.trigger_configs plan_id))

  unfoldable pub add_time_trigger : Ledger → Address → ℕ → ℕ → Action W (Unit {0})
  add_time_trigger l owner plan_id trigger_date = do
    require_auth l owner
    get_own_plan owner plan_id
    raise_if (trigger_date == 0) missing_required_field
    require_not_triggered plan_id
    config ← config_or_new l plan_id
    save_trigger_config plan_id (record config {
      conditions = with_condition TriggerConditionType.time config.conditions;
      trigger_date = trigger_date;
    })

  unfoldable pub add_inactivity_trigger : Ledger → Address → ℕ → ℕ → Action W (Unit {0})
  add_inactivity_trigger l owner plan_id period_seconds = do
    require_auth l owner
    get_own_plan owner plan_id
    raise_if (period_seconds == 0) missing_required_field
    require_not_triggered plan_id
    config ← config_or_new l plan_id
    save_trigger_config plan_id (record config {
      conditions = with_condition TriggerConditionType.inactivity config.conditions;
      inactivity_period = period_seconds;
      last_activity = if config.last_activity == 0 then l.timestamp else config.last_activity;
    })

  unfoldable pub add_oracle_trigger : Ledger → Address → ℕ → Address → Action W (Unit {0})
  add_oracle_trigger l owner plan_id oracle_address = do
    require_auth l owner
    get_own_plan owner plan_id
    require_not_triggered plan_id
    config ← config_or_new l plan_id
    save_trigger_config plan_id (record config {
      conditions = with_condition TriggerConditionType.oracle config.conditions;
      oracle_address = some oracle_address;
    })

  unfoldable pub add_health_trigger : Ledger → Address → ℕ → Address → Action W (Unit {0})
  add_health_trigger l owner plan_id oracle_address = do
    require_auth l owner
    get_own_plan owner plan_id
    require_not_triggered plan_id
    config ← config_or_new l plan_id
    save_trigger_config plan_id (record config {
      conditions = with_condition TriggerConditionType.health config.conditions;
      oracle_address = some oracle_address;
    })

  unfoldable pub record_activity : Ledger → Address → ℕ → Action W (Unit {0})
  record_activity l owner plan_id = do
    require_auth l owner
    get_own_plan owner plan_id
    config ← get_trigger_config plan_id
    save_trigger_config plan_id (record config { last_activity = l.timestamp })

  unfoldable pub submit_oracle_trigger : Ledger → Address → ℕ → Action W (Unit {0})
  submit_oracle_trigger l caller plan_id = do
    require_auth l caller
    config ← get_trigger_config plan_id
    raise_if (not (is_address config.oracle_address caller)) unauthorized
    save_trigger_config plan_id (record config { oracle_triggered = true })

  unfoldable pub submit_health_trigger : Ledger → Address → ℕ → Action W (Unit {0})
  submit_health_trigger l caller plan_id = do
    require_auth l caller
    config ← get_trigger_config plan_id
    raise_if (not (is_address config.oracle_address caller)) unauthorized
    save_trigger_config plan_id (record config { health_triggered = true })
