-- ===== src/Inheritance/Claims/Payouts.antt =====
-- contracts/inheritance-contract/src/lib.rs: how much of a plan a claim pays out, and what it leaves.
use xource_x.Prelude.{ℕ, ◌+◌, ◌-◌, ◌*◌, ◌≤◌, ◌<◌, ◌≡◌, ap, Option, some, arith}
use native.Mathlib.Nat.{mul-sub}
use xource_x.Prelude.Words.{mul_div_u128, mul_div_u128-le, as_u64-mul-le}
use xource_x.Prelude.Outcome.{ok, OnSome}
use xource_x.AccessControl.{Address}
use xource_x.Inheritance.Types.{Bytes, InheritancePlan, Beneficiary}
use xource_x.Inheritance.Store.{External, Ledger, Store}
use xource_x.Inheritance.Claims.{
  entitlement, waterfall_payout, settled_payout, claim_inheritance_plan,
}
use xource_x.Inheritance.Claims.Search.{Fits}
use xource_x.Prelude.Lists.{get_elem?}
use xource_x.Inheritance.Claims.Effects.{claim_inheritance_plan-PlanClaimed}
use xource_x.Inheritance.Claims.Payment.{paid_plan}

entitlement-le :
    (plan : InheritancePlan) (b : Beneficiary)
    → entitlement plan b * 10_000 ≤ plan.total_amount * b.allocation_bp
unfolding entitlement
entitlement-le plan b =
    let q = mul_div_u128 plan.total_amount b.allocation_bp 10_000 in
    let whole =
      as_u64-mul-le q 10_000 (plan.total_amount * b.allocation_bp)
        (mul_div_u128-le plan.total_amount b.allocation_bp 10_000) in
    ground arith

entitlement-total :
    (plan : InheritancePlan) (b : Beneficiary) → entitlement plan b ≤ plan.total_amount
unfolding entitlement
entitlement-total plan b = ground arith

waterfall_payout-le :
    (plan : InheritancePlan) (b : Beneficiary) → waterfall_payout plan b ≤ entitlement plan b
unfolding waterfall_payout
waterfall_payout-le plan b = ground arith

settled_payout-le : (payout settlement : ℕ) → settled_payout payout settlement ≤ payout
settled_payout-le payout settlement = ground arith

left :
    (total bp payout : ℕ)
    → payout * 10_000 ≤ total * bp
    → payout ≤ total
    → total * (10_000 - bp) ≤ (total - payout) * 10_000
left total bp payout part most = omega (arith, mul-sub total 10_000 bp)

module _ (x : External) (l : Ledger) where
  open x use {World, sha256}

  -- A successful claim is for a stored beneficiary of the plan, whom the email and the code fit. The
  -- plan's vault pays the claimer a positive amount, at most that beneficiary's share of the total that
  -- the plan has left at the time of the claim, and the plan's total falls by exactly that amount: at
  -- least the rest of the total stays for the others.
  pub claim_inheritance_plan-remainder :
      (id : ℕ) (claimer : Address) (email : Bytes) (code : ℕ) (s t : Store World)
      → claim_inheritance_plan x l id claimer email code s ≡ ok (tt, t)
      → (plan : InheritancePlan) × (index : ℕ) × (b : Beneficiary) × (payout : ℕ)
        × (vault : Address) × (s.plans id ≡ some plan)
        × (get_elem? plan.beneficiaries index ≡ some b)
        × Fits x s id (sha256 email) code index b
        × (s.plan_vaults id ≡ some vault)
        × (x.release vault plan.token claimer payout s.world ≡ some t.world)
        × (payout * 10_000 ≤ plan.total_amount * b.allocation_bp)
        × (0 < payout)
        × OnSome
            (λ q.
              (q.total_amount + payout ≡ plan.total_amount)
              × (plan.total_amount * (10_000 - b.allocation_bp) ≤ q.total_amount * 10_000))
            (t.plans id)
  unfolding paid_plan
  claim_inheritance_plan-remainder id claimer email code s t h =
      let c = claim_inheritance_plan-PlanClaimed x l id claimer email code s t h in
      let plan = c.plan in
      let b = c.beneficiary in
      let share = entitlement-le plan b in
      let most = waterfall_payout-le plan b in
      let settled = settled_payout-le (waterfall_payout plan b) c.settlement in
      let all = entitlement-total plan b in
      let below : c.payout ≤ entitlement plan b = omega (arith, c.amount) in
      let part : c.payout * 10_000 ≤ plan.total_amount * b.allocation_bp = omega arith in
      (
        plan,
        c.index,
        b,
        c.payout,
        c.vault,
        c.found,
        c.at_index,
        c.named,
        c.held_by,
        c.paid,
        part,
        c.positive,
        ground (
          arith,
          ap (λ (f : ℕ → Option InheritancePlan). f id) c.stored,
          left plan.total_amount b.allocation_bp c.payout part (omega arith),
          below,
          all,
        ),
      )
