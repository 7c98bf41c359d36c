-- ===== src/Inheritance/Settings.antt =====
-- contracts/inheritance-contract/src/lib.rs: the settings of a plan, its deactivation and its transfer.
use xource_x.Prelude.{
  ℕ, Bool, true, false, not, ◌||◌, List, [], ◌∷◌, ltb, ◌==◌, if◌then◌else◌, is_some,
}
use xource_x.Prelude.Outcome.{◌>>=◌, ◌>>◌, gets, modify, raise_if}
use xource_x.Prelude.Dict.{update}
use xource_x.AccessControl.{Address}
use xource_x.Inheritance.Types.{
  plan_not_active, plan_already_deactivated, invalid_beneficiary_data, vault_lendable_changed,
  grace_period_updated, waterfall_enabled, plan_deactivated, plan_ownership_transferred,
}
use xource_x.Inheritance.Store.{
  Ledger, Action, emit, require_auth, enter_guard, exit_guard, check_not_paused, get_plan,
  get_own_plan, store_plan, check_not_frozen, add_plan_to_user, add_plan_to_deactivated,
}

-- 7 days and 5 years
abbrev pub min_grace_period_seconds : ℕ
min_grace_period_seconds = 604_800

abbrev pub max_grace_period_seconds : ℕ
max_grace_period_seconds = 157_680_000

-- The loop of `remove_plan_from_user`, which removes the first occurrence.
unfoldable pub remove_first : ℕ → List ℕ → List ℕ
remove_first plan_id [] = []
remove_first plan_id (i ∷ rest) = if i == plan_id then rest else i ∷ remove_first plan_id rest

module _ {W : Type 0} where
  unfoldable pub set_lendable : Ledger → Address → ℕ → Bool → Action W (Unit {0})
  unfolding get_own_plan store_plan
  set_lendable l owner plan_id is_lendable = do
    require_auth l owner
    plan ← get_own_plan owner plan_id
    store_plan plan_id (record plan { is_lendable = is_lendable })
    emit (vault_lendable_changed plan_id is_lendable)

  unfoldable pub update_grace_period : Ledger → ℕ → ℕ → Action W (Unit {0})
  unfolding get_plan store_plan
  update_grace_period l plan_id new_grace_period = do
    plan ← get_plan plan_id
    require_auth l plan.owner
    raise_if
        (ltb new_grace_period min_grace_period_seconds
          || ltb max_grace_period_seconds new_grace_period)
        invalid_beneficiary_data
    store_plan plan_id (record plan { grace_period = new_grace_period })
    emit (grace_period_updated plan_id new_grace_period)

  unfoldable pub enable_waterfall_distribution : Ledger → Address → ℕ → Action W (Unit {0})
  unfolding get_own_plan store_plan
  enable_waterfall_distribution l owner plan_id = do
    require_auth l owner
    plan ← get_own_plan owner plan_id
    store_plan plan_id (record plan { waterfall_enabled = true })
    emit (waterfall_enabled plan_id l.timestamp)

  unfoldable pub deactivate_inheritance_plan : Ledger → Address → ℕ → Action W (Unit {0})
  unfolding check_not_paused enter_guard exit_guard get_own_plan store_plan add_plan_to_deactivated
  deactivate_inheritance_plan l owner plan_id = do
    check_not_paused
    enter_guard
    require_auth l owner
    plan ← get_own_plan owner plan_id
    raise_if (not plan.is_active) plan_already_deactivated
    store_plan plan_id (record plan { is_active = false })
    add_plan_to_deactivated plan_id
    emit (plan_deactivated plan_id owner plan.total_amount l.timestamp)
    exit_guard

  unfoldable pub transfer_plan_ownership : Ledger → Address → Address → ℕ → Action W (Unit {0})
  unfolding get_own_plan store_plan check_not_frozen add_plan_to_user
  transfer_plan_ownership l owner new_owner plan_id = do
    require_auth l owner
    plan ← get_own_plan owner plan_id
    info ← gets (λ s. s.triggers plan_id)
    raise_if (is_some info) plan_not_active
    check_not_frozen plan_id
    modify (λ s. record s {
      user_plans = update owner (remove_first plan_id (s.user_plans owner)) s.user_plans;
    })
    add_plan_to_user new_owner plan_id
    store_plan plan_id (record plan { owner = new_owner })
    emit (plan_ownership_transferred plan_id plan.owner new_owner l.timestamp)
