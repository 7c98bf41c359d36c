-- ===== src/Inheritance/Tests/Guards.antt =====
-- Triggers, disputes and recalls.
use xource_x.Prelude.{ℕ, ◌≤◌, ◌≡◌, refl, true, List, some, [], ◌∷◌, arith}
use xource_x.Prelude.Outcome.{Fails, Returns}
use xource_x.Prelude.Lists.{length, contains}
use xource_x.Inheritance.Types.{GuardianConfig}
use xource_x.Inheritance.Store.{Store}
use xource_x.Inheritance.Plans.{deposit, withdraw}
use xource_x.Inheritance.Triggers.{
  trigger_inheritance, guardian_emergency_trigger, authorize_trigger, get_triggerable_plan,
  approving_guardians,
}
use xource_x.Inheritance.Triggers.Guardians.{
  Approving, MayTrigger, TriggeredByCall, trigger_inheritance-Triggered,
  guardian_emergency_trigger-Approved,
}
use xource_x.Inheritance.Claims.{claim_inheritance_plan}
use xource_x.Inheritance.Disputes.{raise_dispute}
use xource_x.Inheritance.Disputes.Frozen.{raise_dispute-Frozen}
use xource_x.Inheritance.Recall.{recall_loan, liquidation_fallback}
use xource_x.Inheritance.Steps.{Reach}
use xource_x.Inheritance.Steps.Reachable.{recall_loan-Fails}
use xource_x.Inheritance.Tests.Setup.{host, ledger, plan, store, after}
use xource_x.Inheritance.Tests.Claims.{store-IsSound}

abbrev triggered : Store host.World
unfolding trigger_inheritance authorize_trigger get_triggerable_plan
triggered = after store (trigger_inheritance ledger 1 1 store)

trigger_inheritance-Triggered_example :
    (ledger.authorized 1 ≡ true)
    × MayTrigger ledger 1 1 store
    × TriggeredByCall ledger 1 store triggered
unfolding trigger_inheritance authorize_trigger get_triggerable_plan
trigger_inheritance-Triggered_example =
    trigger_inheritance-Triggered ledger 1 1 store triggered refl

-- Guardian 4 signs twice, a stranger once, guardian 6 once.
abbrev signers : List ℕ
signers = 4 ∷ 4 ∷ 8 ∷ 6 ∷ []

abbrev recovered : Store host.World
unfolding guardian_emergency_trigger approving_guardians get_triggerable_plan length contains
recovered = after store (guardian_emergency_trigger ledger 1 signers store)

guardian_emergency_trigger-Approved_example :
    (config : GuardianConfig) × (approved : List ℕ) × (store.guardians 1 ≡ some config)
    × Approving ledger config.guardians approved
    × (config.threshold ≤ length approved)
    × TriggeredByCall ledger 1 store recovered
unfolding guardian_emergency_trigger approving_guardians get_triggerable_plan length contains
guardian_emergency_trigger-Approved_example =
    guardian_emergency_trigger-Approved ledger 1 signers store recovered refl

raise_dispute-Frozen_example :
    Returns
      (λ dispute_id t.
        Fails (withdraw host ledger 1 9 1 100 t)
        × Fails (deposit host ledger 1 9 1 100 t)
        × Fails (claim_inheritance_plan host ledger 1 1 (65 ∷ []) 123_456 t)
        × Fails (trigger_inheritance ledger 1 1 t)
        × Fails (guardian_emergency_trigger ledger 1 signers t))
      (raise_dispute ledger 1 99 store)
raise_dispute-Frozen_example =
    raise_dispute-Frozen host ledger ledger 1 99 7 plan 1 9 100 (65 ∷ []) 123_456 signers store refl
      refl refl refl refl (omega arith)

recall_loan-Fails_example :
    Fails (recall_loan ledger 7 1 50 store) × Fails (liquidation_fallback ledger 7 1 store)
recall_loan-Fails_example = recall_loan-Fails host ledger 7 1 50 store-IsSound Reach.here
