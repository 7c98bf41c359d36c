-- ===== src/Inheritance/Steps/PlanChanges.antt =====
-- contracts/inheritance-contract/src/lib.rs: how a call for a plan changes the stored plan.
use xource_x.Prelude.{ℕ, ◌-◌, ◌≡◌, refl, true, false, none, some, arith, Option-cases, inl, inr}
use xource_x.Prelude.Lists.{get_elem?, set}
use xource_x.Prelude.Outcome.{ok}
use xource_x.Prelude.Dict.{update}
use xource_x.Inheritance.Types.{InheritancePlan, CreateInheritancePlanParams}
use xource_x.Inheritance.Store.{Ledger, Store}
use xource_x.Inheritance.Allocations.{allocations-set, length-set}
use xource_x.Inheritance.Books.{
  PlanIsSound, PlanChanged, SamePlans, SameClaims, remove_beneficiary-PlanChanged,
}
use xource_x.Inheritance.Beneficiaries.{set_beneficiary_priority}
use xource_x.Inheritance.Settings.{
  set_lendable, update_grace_period, enable_waterfall_distribution, deactivate_inheritance_plan,
  transfer_plan_ownership,
}
use xource_x.Inheritance.Plans.Creation.{PlanCreated}
use xource_x.Inheritance.Recall.{freeze_loans, recall_loan, liquidation_fallback}
use xource_x.Inheritance.Triggers.Effects.{auto_trigger_check-lem}
use xource_x.Inheritance.Triggers.Guardians.{
  TriggeredByCall, trigger_inheritance-Triggered, guardian_emergency_trigger-Approved,
}
use xource_x.Inheritance.Steps.{PlanCall, apply_plan_call}

-- A step leaves the plans alone, changes one of them, or adds one under the id that was next.
pub data Change {W : Type 0} (s t : Store W) : Type 0 where
  same : SamePlans s t → Change s t
  changed : PlanChanged s t → Change s t
  added :
      (l : Ledger) (params : CreateInheritancePlanParams) (id : ℕ)
      → PlanCreated l params id s t
      → Change s t

-- A plan whose beneficiaries, allocation and lent amount are as they were stays in order.
PlanIsSound-kept :
    (p q : InheritancePlan)
    → q.beneficiaries ≡ p.beneficiaries
    → q.total_allocation_bp ≡ p.total_allocation_bp
    → q.total_loaned ≡ p.total_loaned
    → PlanIsSound p
    → PlanIsSound q
PlanIsSound-kept p q b a n h = record {
  allocated = ground (arith, h.allocated);
  within = ground (arith, h.within);
  counted = ground (arith, h.counted);
  unlent = ground (arith, h.unlent);
}

module _ {W : Type 0} (plan_id : ℕ) (plan after : InheritancePlan) {s t : Store W} where
  pub Change-to :
      s.plans plan_id ≡ some plan
      → t.plans ≡ update plan_id (some after) s.plans
      → t.next_plan_id ≡ s.next_plan_id
      → SameClaims s t
      → (PlanIsSound plan → PlanIsSound after)
      → Change s t
  Change-to found stored counter claims sound = Change.changed (record {
    plan_id = plan_id;
    before = plan;
    after = after;
    found = found;
    stored = stored;
    counter = counter;
    claims = λ key k. ground (arith, claims, k);
    vaults = claims.1;
    sound = sound;
  })

  pub Change-setting :
      s.plans plan_id ≡ some plan
      → t.plans ≡ update plan_id (some after) s.plans
      → t.next_plan_id ≡ s.next_plan_id
      → SameClaims s t
      → after.beneficiaries ≡ plan.beneficiaries
      → after.total_allocation_bp ≡ plan.total_allocation_bp
      → after.total_loaned ≡ plan.total_loaned
      → Change s t
  Change-setting found stored counter claims b a n =
      Change-to found stored counter claims (PlanIsSound-kept plan after b a n)

module _ {W : Type 0} (l : Ledger) (id : ℕ) where
  TriggeredByCall-Change : {s t : Store W} → TriggeredByCall l id s t → Change s t
  TriggeredByCall-Change c =
      let g = c.trigger in
      let plan = g.plan in
      Change-setting id plan (record plan { is_lendable = false }) g.found g.stored c.counter
        c.claims refl refl refl

  pub plan_call-Change :
      (c : PlanCall) (plan : InheritancePlan) (s t : Store W)
      → s.plans id ≡ some plan
      → apply_plan_call l id c s ≡ ok (tt, t)
      → Change s t
  unfolding apply_plan_call set_lendable update_grace_period enable_waterfall_distribution
      deactivate_inheritance_plan transfer_plan_ownership set_beneficiary_priority freeze_loans
      recall_loan liquidation_fallback
  plan_call-Change (PlanCall.set_lendable owner b) plan s t found h =
      Change-setting id plan (record plan { is_lendable = b }) found (ground arith) (ground arith)
        (ground arith) refl refl refl
  plan_call-Change (PlanCall.update_grace_period n) plan s t found h =
      Change-setting id plan (record plan { grace_period = n }) found (ground arith) (ground arith)
        (ground arith) refl refl refl
  plan_call-Change (PlanCall.enable_waterfall_distribution owner) plan s t found h =
      Change-setting id plan (record plan { waterfall_enabled = true }) found (ground arith)
        (ground arith) (ground arith) refl refl refl
  plan_call-Change (PlanCall.deactivate_inheritance_plan owner) plan s t found h =
      Change-setting id plan (record plan { is_active = false }) found (ground arith) (ground arith)
        (ground arith) refl refl refl
  plan_call-Change (PlanCall.transfer_plan_ownership owner new_owner) plan s t found h =
      Change-setting id plan (record plan { owner = new_owner }) found (ground arith) (ground arith)
        (ground arith) refl refl refl
  plan_call-Change (PlanCall.remove_beneficiary owner index) plan s t found h =
      Change.changed (remove_beneficiary-PlanChanged l owner id index s t h)
  plan_call-Change (PlanCall.set_beneficiary_priority owner index priority) plan s t found h =
      elim (Option-cases (get_elem? plan.beneficiaries index)) [
        | inl missing ↦ absurd (ground arith)
        | inr (b, at) ↦
            let after : InheritancePlan = record plan {
              beneficiaries = set plan.beneficiaries index (record b { priority = priority });
            } in
            Change-to id plan after found (ground arith) (ground arith) (ground arith) λ p. record {
              allocated = omega (
                arith,
                p.allocated,
                allocations-set plan.beneficiaries index b (record b { priority = priority }) at,
              );
              within = p.within;
              counted = omega (
                arith,
                p.counted,
                length-set plan.beneficiaries index (record b { priority = priority }),
              );
              unlent = p.unlent;
            }
      ]
  plan_call-Change PlanCall.auto_trigger_check plan s t found h =
      elim (auto_trigger_check-lem l id s t h) [
        | inl kept ↦ Change.same (ground arith)
        | inr (met, only, g) ↦
            Change-setting id g.plan (record (g.plan) { is_lendable = false }) g.found g.stored
              (ground (arith, only)) (ground (arith, only)) refl refl refl
      ]
  plan_call-Change (PlanCall.trigger_inheritance caller) plan s t found h =
      TriggeredByCall-Change (trigger_inheritance-Triggered l caller id s t h).2
  plan_call-Change (PlanCall.guardian_emergency_trigger signers) plan s t found h =
      TriggeredByCall-Change (guardian_emergency_trigger-Approved l id signers s t h).5
  plan_call-Change (PlanCall.freeze_loans admin) plan s t found h =
      Change-setting id plan (record plan { is_lendable = false }) found (ground arith)
        (ground arith) (ground arith) refl refl refl
  plan_call-Change (PlanCall.liquidation_fallback admin) plan s t found h =
      Change-to id plan
        (record plan { total_amount = plan.total_amount - plan.total_loaned; total_loaned = 0 })
        found (ground arith) (ground arith) (ground arith)
        λ p. record {
          allocated = p.allocated;
          within = p.within;
          counted = p.counted;
          unlent = refl;
        }
  plan_call-Change (PlanCall.recall_loan admin amount) plan s t found h =
      Change-to id plan (record plan { total_loaned = plan.total_loaned - amount }) found
        (ground arith) (ground arith) (ground arith)
        λ p. record {
          allocated = p.allocated;
          within = p.within;
          counted = p.counted;
          unlent = omega (arith, p.unlent);
        }

  -- On a plan that is not stored only the automatic check succeeds, and changes nothing.
  pub no_plan-Change :
      (c : PlanCall) (s t : Store W)
      → s.plans id ≡ none
      → apply_plan_call l id c s ≡ ok (tt, t)
      → Change s t
  unfolding apply_plan_call set_lendable update_grace_period enable_waterfall_distribution
      deactivate_inheritance_plan transfer_plan_ownership set_beneficiary_priority freeze_loans
      recall_loan liquidation_fallback
  no_plan-Change (PlanCall.set_lendable owner b) s t missing h = absurd (ground arith)
  no_plan-Change (PlanCall.update_grace_period n) s t missing h = absurd (ground arith)
  no_plan-Change (PlanCall.enable_waterfall_distribution owner) s t missing h =
      absurd (ground arith)
  no_plan-Change (PlanCall.deactivate_inheritance_plan owner) s t missing h = absurd (ground arith)
  no_plan-Change (PlanCall.transfer_plan_ownership owner new_owner) s t missing h =
      absurd (ground arith)
  no_plan-Change (PlanCall.remove_beneficiary owner index) s t missing h =
      Change.changed (remove_beneficiary-PlanChanged l owner id index s t h)
  no_plan-Change (PlanCall.set_beneficiary_priority owner index priority) s t missing h =
      absurd (ground arith)
  no_plan-Change PlanCall.auto_trigger_check s t missing h =
      elim (auto_trigger_check-lem l id s t h) [
        | inl kept ↦ Change.same (ground arith)
        | inr (met, only, g) ↦ absurd (ground (arith, g.found))
      ]
  no_plan-Change (PlanCall.trigger_inheritance caller) s t missing h =
      TriggeredByCall-Change (trigger_inheritance-Triggered l caller id s t h).2
  no_plan-Change (PlanCall.guardian_emergency_trigger signers) s t missing h =
      TriggeredByCall-Change (guardian_emergency_trigger-Approved l id signers s t h).5
  no_plan-Change (PlanCall.freeze_loans admin) s t missing h = absurd (ground arith)
  no_plan-Change (PlanCall.liquidation_fallback admin) s t missing h = absurd (ground arith)
  no_plan-Change (PlanCall.recall_loan admin amount) s t missing h = absurd (ground arith)
