-- ===== src/Inheritance/Recall.antt =====
-- contracts/inheritance-contract/src/lib.rs: the loans of a plan after its trigger: the freeze, the
-- recall, and the write-off.
use xource_x.Prelude.{ℕ, ◌-◌, true, false, ◌||◌, ltb, ◌==◌}
use xource_x.Prelude.Words.{u64_mod}
use xource_x.Prelude.Outcome.{◌>>=◌, ◌>>◌, gets, raise_if, or_raise, pure}
use xource_x.AccessControl.{Address}
use xource_x.Inheritance.Types.{
  InheritanceTriggerInfo, inheritance_not_triggered, no_outstanding_loans, loan_recall_failed,
  loan_frozen, loan_recalled, liquidated,
}
use xource_x.Inheritance.Store.{
  Ledger, Action, emit, add_below, require_admin, check_not_paused, get_plan, store_plan,
  set_trigger_info,
}

module _ {W : Type 0} where
  abbrev get_trigger_info : ℕ → Action W InheritanceTriggerInfo
  get_trigger_info plan_id = do
    found ← gets (λ s. s.triggers plan_id)
    or_raise found inheritance_not_triggered

  unfoldable pub freeze_loans : Ledger → Address → ℕ → Action W (Unit {0})
  unfolding check_not_paused require_admin get_plan store_plan set_trigger_info
  freeze_loans l admin plan_id = do
    check_not_paused
    require_admin l admin
    plan ← get_plan plan_id
    info ← get_trigger_info plan_id
    store_plan plan_id (record plan { is_lendable = false })
    set_trigger_info plan_id (record info { loan_freeze_active = true })
    emit (loan_frozen plan_id l.timestamp)

  unfoldable pub recall_loan : Ledger → Address → ℕ → ℕ → Action W (Unit {0})
  unfolding require_admin get_plan store_plan set_trigger_info
  recall_loan l admin plan_id recall_amount = do
    require_admin l admin
    plan ← get_plan plan_id
    info ← get_trigger_info plan_id
    raise_if (plan.total_loaned == 0) no_outstanding_loans
    raise_if (recall_amount == 0 || ltb plan.total_loaned recall_amount) loan_recall_failed
    let remaining = plan.total_loaned - recall_amount
    store_plan plan_id (record plan { total_loaned = remaining })
    recalled ← add_below u64_mod info.recalled_amount recall_amount
    set_trigger_info plan_id (record info { recall_attempted = true; recalled_amount = recalled })
    emit (loan_recalled plan_id recall_amount remaining)

  unfoldable pub liquidation_fallback : Ledger → Address → ℕ → Action W (Unit {0})
  unfolding require_admin get_plan store_plan set_trigger_info
  liquidation_fallback l admin plan_id = do
    require_admin l admin
    plan ← get_plan plan_id
    info ← get_trigger_info plan_id
    raise_if (plan.total_loaned == 0) no_outstanding_loans
    let unrecoverable = plan.total_loaned
    let claimable = plan.total_amount - unrecoverable
    store_plan plan_id (record plan { total_amount = claimable; total_loaned = 0 })
    settled ← add_below u64_mod info.settled_amount unrecoverable
    set_trigger_info plan_id
        (record info { liquidation_triggered = true; settled_amount = settled })
    emit (liquidated plan_id unrecoverable claimable)

  unfoldable pub get_claimable_amount : ℕ → Action W ℕ
  unfolding get_plan
  get_claimable_amount plan_id = do
    plan ← get_plan plan_id
    pure (plan.total_amount - plan.total_loaned)
