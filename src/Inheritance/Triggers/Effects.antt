-- ===== src/Inheritance/Triggers/Effects.antt =====
-- contracts/inheritance-contract/src/lib.rs: what triggers a plan's inheritance, and what a trigger
-- does.
use xource_x.Prelude.{
  ℕ, ◌≡◌, ◌∙◌, Bool, true, false, not, ◌&&◌, none, some, List, [], ◌∷◌, arith, Option-cases,
  Bool-cases, ◌⊎◌, inl, inr, is_some,
}
use xource_x.Prelude.Outcome.{ok, >>=-eq-ok}
use xource_x.Prelude.Dict.{update}
use xource_x.Inheritance.Types.{
  InheritancePlan, InheritanceTriggerInfo, TriggerConfig, TriggerConditionType, manual, time,
  inactivity, oracle, health,
}
use xource_x.Inheritance.Store.{Ledger, Store}
use xource_x.Inheritance.Triggers.{
  condition_met, any_condition_met, check_trigger_conditions, trigger_now, auto_trigger_check,
}

-- The record of a trigger at `now`.
abbrev pub fresh_trigger : ℕ → InheritancePlan → InheritanceTriggerInfo
fresh_trigger now plan = record {
  triggered_at = now;
  loan_freeze_active = true;
  recall_attempted = false;
  liquidation_triggered = false;
  original_loaned = plan.total_loaned;
  recalled_amount = 0;
  settled_amount = 0;
}

module _ {W : Type 0} (l : Ledger) (plan_id : ℕ) where
  -- The plan was active and not triggered; now its trigger is recorded and it lends no more.
  pub record Triggered (s t : Store W) : Type 0 where
    pub plan : InheritancePlan
    pub found : s.plans plan_id ≡ some plan
    pub active : plan.is_active ≡ true
    pub untriggered : s.triggers plan_id ≡ none
    pub stored : t.plans ≡ update plan_id (some (record plan { is_lendable = false })) s.plans
    pub recorded : t.triggers ≡ update plan_id (some (fresh_trigger l.timestamp plan)) s.triggers

  -- At most the plans, the triggers and the events have changed.
  abbrev pub OnlyTrigger : Store W → Store W → Type 0
  OnlyTrigger s t = t ≡ record s { plans = t.plans; triggers = t.triggers; events = t.events }

  condition_met-same :
      (config : TriggerConfig) (c : TriggerConditionType) (met : Bool) (s t : Store W)
      → condition_met l config c s ≡ ok (met, t)
      → t ≡ s
  unfolding condition_met
  condition_met-same config time met s t h = ground arith
  condition_met-same config inactivity met s t h = ground arith
  condition_met-same config oracle met s t h = ground arith
  condition_met-same config health met s t h = ground arith
  condition_met-same config manual met s t h = ground arith

  any_condition_met-same :
      (config : TriggerConfig) (cs : List TriggerConditionType) (met : Bool) (s t : Store W)
      → any_condition_met l config cs s ≡ ok (met, t)
      → t ≡ s
  unfolding any_condition_met
  any_condition_met-same config [] met s t h = ground arith
  any_condition_met-same config (c ∷ cs) met s t h =
      let (one, u, e, k) = >>=-eq-ok (condition_met l config c) _ s h in
      let same = condition_met-same config c one s u e in
      elim (Bool-cases one) [
        | inl y ↦ ground arith
        | inr n ↦ any_condition_met-same config cs met u t (ground arith) ∙ same
      ]

  check_trigger_conditions-same :
      (met : Bool) (s t : Store W) → check_trigger_conditions l plan_id s ≡ ok (met, t) → t ≡ s
  unfolding check_trigger_conditions
  check_trigger_conditions-same met s t h = elim (Option-cases (s.trigger_configs plan_id)) [
    | inl nothing ↦ ground arith
    | inr (config, found) ↦ any_condition_met-same config config.conditions met s t (ground arith)
  ]

  trigger_now-Triggered :
      (s t : Store W)
      → s.triggers plan_id ≡ none
      → trigger_now l plan_id s ≡ ok (tt, t)
      → OnlyTrigger s t × Triggered s t
  unfolding trigger_now
  trigger_now-Triggered s t fresh h = elim (Option-cases (s.plans plan_id)) [
    | inl missing ↦ absurd (ground arith)
    | inr (plan, found) ↦ (
      ground arith,
      record {
        plan = plan;
        found = found;
        active = ground arith;
        untriggered = fresh;
        stored = ground arith;
        recorded = ground arith;
      },
    )
  ]

  -- The automatic check triggers the plan or changes nothing. It triggers only where a condition is
  -- met.
  pub auto_trigger_check-lem :
      (s t : Store W)
      → auto_trigger_check l plan_id s ≡ ok (tt, t)
      → (t ≡ s)
        ⊎ ((check_trigger_conditions l plan_id s ≡ ok (true, s)) × OnlyTrigger s t × Triggered s t)
  unfolding auto_trigger_check
  auto_trigger_check-lem s t h =
      let (met, u, e, k) = >>=-eq-ok (check_trigger_conditions l plan_id) _ s h in
      let same = check_trigger_conditions-same met s u e in
      elim (Bool-cases (met && not (is_some (u.triggers plan_id)))) [
        | inr n ↦ inl (ground arith)
        | inl y ↦
            let met_it : met ≡ true = ground arith in
            let fresh : s.triggers plan_id ≡ none = ground arith in
            let (only, done) = trigger_now-Triggered s t fresh (ground arith) in
            inr (ground arith, only, done)
      ]
