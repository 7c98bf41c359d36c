-- ===== src/Inheritance/Steps/Changes.antt =====
-- contracts/inheritance-contract/src/lib.rs: how each step changes the stored plans, the claims and the
-- vaults.
use xource_x.Prelude.{ℕ, ◌+◌, ◌-◌, ◌≡◌, refl, Bool, ◌||◌, List, arith, Option-cases, inl, inr}
use xource_x.Prelude.Outcome.{ok, Outcome-cases}
use xource_x.AccessControl.{Address}
use xource_x.Inheritance.Types.{Bytes, Beneficiary, BeneficiaryInput}
use xource_x.Inheritance.Store.{
  External, Ledger, Store, get_own_plan, store_plan, check_not_paused, enter_guard, exit_guard,
}
use xource_x.Inheritance.Allocations.{allocations-set, length-set, validate_beneficiaries-sum}
use xource_x.Inheritance.Books.{locked, create_beneficiaries-sum, add_beneficiary-PlanChanged}
use xource_x.Inheritance.Beneficiaries.{validate_beneficiaries, create_beneficiaries}
use xource_x.Inheritance.Plans.{update_plan}
use xource_x.Inheritance.Plans.Funds.{withdraw-PlanWithdrawn, deposit-PlanDeposited}
use xource_x.Inheritance.Plans.Creation.{create_inheritance_plan-PlanCreated}
use xource_x.Inheritance.Claims.Effects.{PlanClaimed, claim_inheritance_plan-PlanClaimed}
use xource_x.Inheritance.Claims.Payment.{paid_plan, is_final}
use xource_x.Inheritance.Steps.{Step}
use xource_x.Inheritance.Steps.Sides.{apply_side_call-SamePlans}
use xource_x.Inheritance.Steps.PlanChanges.{
  Change, Change-to, Change-setting, plan_call-Change, no_plan-Change,
}

module _ (x : External) where
  open x use {World}

  update_plan-Change :
      (l : Ledger) (owner : Address) (id : ℕ) (bs : List BeneficiaryInput) (grace : ℕ) (earn : Bool)
      (s t : Store World)
      → update_plan x l owner id bs grace earn s ≡ ok (tt, t)
      → Change s t
  unfolding update_plan get_own_plan check_not_paused enter_guard exit_guard store_plan
  update_plan-Change l owner id bs grace earn s t h = elim (Option-cases (s.plans id)) [
    | inl missing ↦ absurd (ground arith)
    | inr (plan, found) ↦ elim (Outcome-cases (validate_beneficiaries bs (locked s))) [
      | inr (inl (e, failed)) ↦ absurd (ground arith)
      | inr (inr trapped) ↦ absurd (ground arith)
      | inl ((d, u), valid) ↦
          let (asked, few, kept) = validate_beneficiaries-sum bs (locked s) u valid in
          elim (Outcome-cases (create_beneficiaries x id 0 0 bs u)) [
            | inr (inl (e, failed)) ↦ absurd (ground arith)
            | inr (inr trapped) ↦ absurd (ground arith)
            | inl ((made, v), run) ↦
                let (total, sum, count, kept') =
                  create_beneficiaries-sum x id 0 0 bs made u v run in
                Change-to id plan
                  (record plan {
                    beneficiaries = made.0;
                    total_allocation_bp = made.1;
                    grace_period = grace;
                    earn_yield = earn;
                  })
                  found (ground arith) (ground arith) (ground arith)
                  λ p. record {
                    allocated = omega arith;
                    within = omega arith;
                    counted = omega arith;
                    unlent = p.unlent;
                  }
          ]
    ]
  ]

  PlanClaimed-Change :
      (l : Ledger) (id : ℕ) (claimer : Address) (email : Bytes) (code : ℕ) (s t : Store World)
      → PlanClaimed x l id claimer email code s t
      → Change s t
  unfolding paid_plan
  PlanClaimed-Change l id claimer email code s t c =
      let b = c.beneficiary in
      let final = is_final c.payout c.settlement in
      let b' : Beneficiary = record b { is_claimed = b.is_claimed || final } in
      Change.changed (record {
        plan_id = id;
        before = c.plan;
        after = paid_plan c.plan c.index b final c.payout;
        found = c.found;
        stored = c.stored;
        counter = c.counter;
        claims = c.claims;
        vaults = c.vaults;
        sound = λ p. record {
          allocated =
              omega
                (arith, p.allocated, allocations-set c.plan.beneficiaries c.index b b' c.at_index);
          within = p.within;
          counted = omega (arith, p.counted, length-set c.plan.beneficiaries c.index b');
          unlent = p.unlent;
        };
      })

  pub Step-Change : {s t : Store World} → Step x s t → Change s t
  Step-Change {s} {t} (Step.created l params id h) =
      Change.added l params id (create_inheritance_plan-PlanCreated x l params id s t h).0
  Step-Change {s} {t} (Step.added l owner id input h) =
      Change.changed (add_beneficiary-PlanChanged x l owner id input s t h)
  Step-Change {s} {t} (Step.updated l owner id bs grace earn h) =
      update_plan-Change l owner id bs grace earn s t h
  Step-Change {s} {t} (Step.deposited l caller token id amount h) =
      let d = deposit-PlanDeposited x l caller token id amount s t h in
      let plan = d.plan in
      Change-setting id plan (record plan { total_amount = plan.total_amount + amount }) d.found
        d.stored d.counter d.claims refl refl refl
  Step-Change {s} {t} (Step.withdrawn l caller token id amount h) =
      let d = withdraw-PlanWithdrawn x l caller token id amount s t h in
      let plan = d.plan in
      Change-setting id plan (record plan { total_amount = plan.total_amount - amount }) d.found
        d.stored d.counter d.claims refl refl refl
  Step-Change {s} {t} (Step.claimed l id claimer email claim_code h) =
      PlanClaimed-Change l id claimer email claim_code s t
        (claim_inheritance_plan-PlanClaimed x l id claimer email claim_code s t h)
  Step-Change {s} {t} (Step.plan_called l id c h) = elim (Option-cases (s.plans id)) [
    | inl missing ↦ no_plan-Change l id c s t missing h
    | inr (plan, found) ↦ plan_call-Change l id c plan s t found h
  ]
  Step-Change {s} {t} (Step.side_called l c h) = Change.same (apply_side_call-SamePlans l c s t h)
  Step-Change (Step.others w s) = Change.same (refl, refl, (refl, refl))
