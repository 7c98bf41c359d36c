-- ===== src/Inheritance/Claims/Effects.antt =====
-- contracts/inheritance-contract/src/lib.rs: what a successful claim has checked and done.
use xource_x.Prelude.{
  ℕ, ◌+◌, ◌-◌, ◌≤◌, ◌<◌, ◌≡◌, ap, ◌∙◌, Bool, true, false, Option, none, some, arith, Bool-cases,
  inl, inr, is_some, ◌==◌, subst,
}
use mathlib.Core.Path.{fun_ext}
use xource_x.Prelude.Lists.{get_elem?, take}
use xource_x.Prelude.Outcome.{ok, >>=-eq-ok}
use xource_x.Prelude.Dict.{update, or_default}
use xource_x.AccessControl.{Address}
use xource_x.Inheritance.Types.{Bytes, InheritancePlan, Beneficiary, KycStatus}
use xource_x.Inheritance.Store.{External, Ledger, Store, exit_guard}
use xource_x.Inheritance.Hashing.{claim_key}
use xource_x.Inheritance.Books.{KeepsClaims}
use xource_x.Inheritance.Plans.{emergency_limit}
use xource_x.Inheritance.Plans.Funds.{NotFrozen, InCooldown}
use xource_x.Inheritance.Claims.{
  Claim, max_beneficiaries, must_wait, waiting_period, waterfall_payout, settled_payout,
  admit_claim, reach_claim_time, identify, pay_claim, claim_inheritance_plan,
}
use xource_x.Inheritance.Claims.Search.{Fits, Identified, identify-Identified}
use xource_x.Inheritance.Claims.Stages.{
  Admitted, Timely, admit_claim-Admitted, reach_claim_time-Timely,
}
use xource_x.Inheritance.Claims.Payment.{Paid, is_final, paid_plan, pay_claim-Paid}

module _ (x : External) (l : Ledger) (plan_id : ℕ) where
  open x use {World, sha256}

  -- What a successful claim has checked and done.
  pub record PlanClaimed (claimer : Address) (email : Bytes) (claim_code : ℕ) (s t : Store World)
      : Type 0 where
    pub plan : InheritancePlan
    pub index : ℕ
    pub beneficiary : Beneficiary
    pub settlement : ℕ
    pub payout : ℕ
    pub vault : Address
    pub found : s.plans plan_id ≡ some plan
    pub by_claimer : (l.authorized claimer ≡ true) × (s.access.blacklisted claimer ≡ false)
    pub approved : (k : KycStatus) × (s.kyc claimer ≡ some k) × (k.approved ≡ true)
    pub active : plan.is_active ≡ true
    pub thawed : NotFrozen plan_id s
    pub at_index : get_elem? plan.beneficiaries index ≡ some beneficiary
    pub named : Fits x s plan_id (sha256 email) claim_code index beneficiary
    pub first_claim : s.claims (claim_key x plan_id (sha256 email)) ≡ none
    pub in_turn :
        plan.waterfall_enabled ≡ true
        → must_wait beneficiary.priority (take max_beneficiaries plan.beneficiaries) ≡ false
    pub ripe :
        t.triggers plan_id ≡ none
        → (plan.created_at + waiting_period plan.distribution_method ≤ l.timestamp)
          × (payout ≤ plan.total_amount - plan.total_loaned)
    pub owed : settlement ≡ or_default 0 (s.exit_settlements plan_id index)
    pub amount : payout ≡ settled_payout (waterfall_payout plan beneficiary) settlement
    pub positive : 0 < payout
    pub limited : InCooldown l plan_id s → payout ≤ emergency_limit plan
    pub held_by : s.plan_vaults plan_id ≡ some vault
    pub paid : x.release vault plan.token claimer payout s.world ≡ some t.world
    pub stored :
        t.plans
        ≡ update plan_id
            (some (paid_plan plan index beneficiary (is_final payout settlement) payout))
            s.plans
    pub recorded :
        is_final payout settlement ≡ true
        → is_some (t.claims (claim_key x plan_id (sha256 email))) ≡ true
    pub counter : t.next_plan_id ≡ s.next_plan_id
    pub claims : KeepsClaims s t
    pub vaults : t.plan_vaults ≡ s.plan_vaults

  -- The four stages and the release of the lock, put together.
  PlanClaimed-stages :
      (claimer : Address) (email : Bytes) (claim_code : ℕ) (plan : InheritancePlan)
      (triggered : Bool) (c : Claim) (s s1 s2 s3 t : Store World)
      → Admitted l plan_id claimer plan s s1
      → Timely l plan_id plan triggered s1 s2
      → c.triggered ≡ triggered
      → Identified x s2 plan_id plan email claim_code c
      → Paid x l plan_id claimer c s2 s3
      → t ≡ record s3 { access = t.access }
      → PlanClaimed claimer email claim_code s t
  PlanClaimed-stages claimer email claim_code plan triggered c s s1 s2 s3 t a r flag i p last =
      record {
        plan = plan;
        index = c.index;
        beneficiary = c.beneficiary;
        settlement = p.settlement;
        payout = p.payout;
        vault = p.vault;
        found = a.found;
        by_claimer = a.by_claimer;
        approved = a.approved;
        active = a.active;
        thawed = a.thawed;
        at_index = i.at_index;
        named = ground (arith, a.only, r.only, i.fits);
        first_claim = ground (arith, a.only, r.only, i.first_claim);
        in_turn = i.in_turn;
        ripe = λ u.
            let n : triggered ≡ false = ground (arith, r.state, p.same_triggers, last, u) in
            (r.ripe n, ground (arith, p.liquid (flag ∙ n), i.of_plan));
        owed = ground (arith, a.only, r.only, p.owed);
        amount = ground (arith, i.of_plan, p.amount);
        positive = p.positive;
        limited = λ n.
            let m : InCooldown l plan_id s2 = ground (arith, a.only, r.only, n) in
            ground (arith, p.limited m, i.of_plan);
        held_by = ground (arith, a.only, r.only, p.held_by);
        paid = ground (arith, a.only, r.only, p.paid, i.of_plan, last);
        stored = fun_ext (λ j.
            let at = ap (λ (f : ℕ → Option InheritancePlan). f j) p.stored in
            elim (Bool-cases (plan_id == j)) [
              | inl here ↦ ground (arith, at, last, i.of_plan, here)
              | inr there ↦ ground (arith, at, last, r.others j there, a.only, there)
            ]);
        recorded = λ f. ground (arith, p.recorded f, last, i.email_hash);
        counter = ground (arith, a.only, r.only, p.counter, last);
        claims = λ key k.
            ground (arith, a.only, r.only, last, p.claims key (ground (arith, a.only, r.only, k)));
        vaults = ground (arith, a.only, r.only, p.vaults, last);
      }

  PlanClaimed-found :
      (claimer : Address) (email : Bytes) (claim_code : ℕ) (plan : InheritancePlan)
      (triggered : Bool) (c : Claim) (s s1 s2 s3 s4 t : Store World)
      → admit_claim l plan_id claimer s ≡ ok (plan, s1)
      → reach_claim_time l plan_id plan s1 ≡ ok (triggered, s2)
      → identify x plan_id plan triggered email claim_code s2 ≡ ok (c, s3)
      → pay_claim x l plan_id claimer c s3 ≡ ok (tt, s4)
      → exit_guard s4 ≡ ok (tt, t)
      → PlanClaimed claimer email claim_code s t
  unfolding exit_guard
  PlanClaimed-found claimer email claim_code plan triggered c s s1 s2 s3 s4 t e1 e2 e3 e4 e5 =
      let a = admit_claim-Admitted l plan_id claimer plan s s1 e1 in
      let r = reach_claim_time-Timely l plan_id plan triggered s1 s2 e2 in
      let (same, flag, i) =
        identify-Identified x plan_id plan triggered email claim_code c s2 s3 e3 in
      let p = pay_claim-Paid x l plan_id claimer c s3 s4 e4 in
      PlanClaimed-stages claimer email claim_code plan triggered c s s1 s2 s4 t a r flag i
        (subst (λ u. Paid x l plan_id claimer c u s4) same p) (ground arith)

  -- A successful claim comes from a caller that has authorised it, is not blacklisted and has an approved
  -- KYC, for an active plan that is neither frozen nor on hold. Email and code fit the beneficiary at
  -- `index`, nobody has claimed under this email, and under a waterfall no earlier beneficiary is left.
  -- Before any trigger, the waiting period is over and lent funds stay. The caller gets `payout` from
  -- the plan's vault, the beneficiary's share cut by the settlement that is owed, and within the
  -- emergency limit; the plan's total falls by it; and a final claim is recorded.
  pub claim_inheritance_plan-PlanClaimed :
      (claimer : Address) (email : Bytes) (claim_code : ℕ) (s t : Store World)
      → claim_inheritance_plan x l plan_id claimer email claim_code s ≡ ok (tt, t)
      → PlanClaimed claimer email claim_code s t
  unfolding claim_inheritance_plan
  claim_inheritance_plan-PlanClaimed claimer email claim_code s t h =
      let (plan, s1, e1, k1) = >>=-eq-ok (admit_claim l plan_id claimer) _ s h in
      let (triggered, s2, e2, k2) = >>=-eq-ok (reach_claim_time l plan_id plan) _ s1 k1 in
      let (c, s3, e3, k3) =
        >>=-eq-ok (identify x plan_id plan triggered email claim_code) _ s2 k2 in
      let (done, s4, e4, k4) = >>=-eq-ok (pay_claim x l plan_id claimer c) _ s3 k3 in
      PlanClaimed-found claimer email claim_code plan triggered c s s1 s2 s3 s4 t e1 e2 e3 e4 k4
