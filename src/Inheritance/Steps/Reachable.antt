-- ===== src/Inheritance/Steps/Reachable.antt =====
-- contracts/inheritance-contract/src/lib.rs: what every reachable state of the contract satisfies.
use xource_x.Prelude.{
  ℕ, ◌≤◌, ◌≡◌, sym, subst, ap, true, Option, none, some, arith, ◌==◌, ◌⊎◌, Option-cases, Bool-cases,
  inl, inr,
}
use xource_x.Prelude.Outcome.{ok, Fails, Outcome-cases}
use xource_x.Prelude.Dict.{or_default}
use xource_x.AccessControl.{Address}
use xource_x.Inheritance.Types.{Bytes, InheritancePlan}
use xource_x.Inheritance.Store.{External, Ledger, Store}
use xource_x.Inheritance.Books.{PlanIsSound, KeepsClaims}
use xource_x.Inheritance.Hashing.{claim_key}
use xource_x.Inheritance.Claims.{claim_inheritance_plan}
use xource_x.Inheritance.Claims.Effects.{claim_inheritance_plan-PlanClaimed}
use xource_x.Inheritance.Claims.Payment.{is_final}
use xource_x.Inheritance.Recall.{recall_loan, liquidation_fallback}
use xource_x.Inheritance.Steps.{Reach}
use xource_x.Inheritance.Steps.PlanChanges.{Change}
use xource_x.Inheritance.Steps.Changes.{Step-Change}

-- Every stored plan is in order, and none stands under an id that is still to come.
pub record PlansAreSound {W : Type 0} (s : Store W) : Type 0 where
  pub plans : (id : ℕ) (p : InheritancePlan) → s.plans id ≡ some p → PlanIsSound p
  pub fresh : (id : ℕ) → or_default 1 s.next_plan_id ≤ id → s.plans id ≡ none

module _ {W : Type 0} where
  Change-plans :
      {s t : Store W}
      → PlansAreSound s
      → Change s t
      → (id : ℕ) (p : InheritancePlan) → t.plans id ≡ some p
      → PlanIsSound p
  Change-plans i (Change.same k) id p e = i.plans id p (ground (arith, k))
  Change-plans i (Change.changed c) id p e =
      let at = ap (λ (f : ℕ → Option InheritancePlan). f id) c.stored in
      elim (Bool-cases (c.plan_id == id)) [
        | inl y ↦
            let now : c.after ≡ p = ground (arith, at) in
            subst PlanIsSound now (c.sound (i.plans c.plan_id c.before c.found))
        | inr n ↦ i.plans id p (ground (arith, at))
      ]
  Change-plans i (Change.added l params new c) id p e =
      let at = ap (λ (f : ℕ → Option InheritancePlan). f id) c.stored in
      elim (Bool-cases (new == id)) [
        | inl y ↦ let now : c.plan ≡ p = ground (arith, at) in subst PlanIsSound now c.sound
        | inr n ↦ i.plans id p (ground (arith, at))
      ]

  Change-fresh :
      {s t : Store W}
      → PlansAreSound s
      → Change s t
      → (id : ℕ) → or_default 1 t.next_plan_id ≤ id
      → t.plans id ≡ none
  Change-fresh i (Change.same k) id above = ground (arith, k, i.fresh id)
  Change-fresh i (Change.changed c) id above =
      let at = ap (λ (f : ℕ → Option InheritancePlan). f id) c.stored in
      ground (arith, at, c.found, c.counter, i.fresh id, i.fresh c.plan_id)
  Change-fresh i (Change.added l params new c) id above =
      let at = ap (λ (f : ℕ → Option InheritancePlan). f id) c.stored in
      ground (arith, at, c.counter, c.next, i.fresh id)

  Change-PlansAreSound : {s t : Store W} → PlansAreSound s → Change s t → PlansAreSound t
  Change-PlansAreSound i c = record { plans = Change-plans i c; fresh = Change-fresh i c }

  Change-KeepsClaims : {s t : Store W} → Change s t → KeepsClaims s t
  Change-KeepsClaims (Change.same k) key h = ground (arith, k)
  Change-KeepsClaims (Change.changed c) key h = c.claims key h
  Change-KeepsClaims (Change.added l params new c) key h = ground (arith, c.claims)

no_loans :
    {W : Type 0} (l : Ledger) (admin : Address) (id amount : ℕ) (t : Store W)
    → (t.plans id ≡ none) ⊎ ((p : InheritancePlan) × (t.plans id ≡ some p) × (p.total_loaned ≡ 0))
    → Fails (recall_loan l admin id amount t) × Fails (liquidation_fallback l admin id t)
unfolding recall_loan liquidation_fallback
no_loans l admin id amount t (inl missing) = ground arith
no_loans l admin id amount t (inr (p, found, unlent)) = ground arith

module _ (x : External) where
  open x use {World, sha256}

  -- In every state that the calls of `Step` reach from one in order, each stored plan is in order: its total
  -- is the sum of its beneficiaries' allocations and at most 100%, it has at most 10 beneficiaries and
  -- no funds that are marked as lent; and no plan stands under an id that is still to be given out.
  pub Reach-PlansAreSound : {s t : Store World} → PlansAreSound s → Reach x s t → PlansAreSound t
  Reach-PlansAreSound i Reach.here = i
  Reach-PlansAreSound i (Reach.next r st) =
      Change-PlansAreSound (Reach-PlansAreSound i r) (Step-Change x st)

  pub Reach-KeepsClaims : {s t : Store World} → Reach x s t → KeepsClaims s t
  Reach-KeepsClaims Reach.here key h = h
  Reach-KeepsClaims (Reach.next r st) key h =
      Change-KeepsClaims (Step-Change x st) key (Reach-KeepsClaims r key h)

  -- Where no exit settlement is stored for the plan, a successful claim is the last one under its email:
  -- in every state that the calls of `Step` reach from there, whoever claims the same plan under the
  -- same email, with whatever code, fails.
  pub claim_inheritance_plan-once :
      (l m : Ledger) (id : ℕ) (claimer other : Address) (email : Bytes) (code code' : ℕ)
      (s t u : Store World)
      → ((index : ℕ) → s.exit_settlements id index ≡ none)
      → claim_inheritance_plan x l id claimer email code s ≡ ok (tt, t)
      → Reach x t u
      → Fails (claim_inheritance_plan x m id other email code' u)
  claim_inheritance_plan-once l m id claimer other email code code' s t u free done r =
      let c = claim_inheritance_plan-PlanClaimed x l id claimer email code s t done in
      let zero : c.settlement ≡ 0 = ground (arith, c.owed, free c.index) in
      let final : is_final c.payout c.settlement ≡ true = ground arith in
      let kept = Reach-KeepsClaims r (claim_key x id (sha256 email)) (c.recorded final) in
      elim (Outcome-cases (claim_inheritance_plan x m id other email code' u)) [
        | inl ((d, v), again) ↦
            let a = claim_inheritance_plan-PlanClaimed x m id other email code' u v again in
            absurd (ground (arith, a.first_claim, kept))
        | inr (inl (e, failed)) ↦ subst Fails (sym failed) tt
        | inr (inr trapped) ↦ subst Fails (sym trapped) tt
      ]

  -- In every state that the calls of `Step` reach from one in order, `recall_loan` and
  -- `liquidation_fallback` fail, for every plan and caller, since none of those calls marks funds as lent.
  pub recall_loan-Fails :
      (l : Ledger) (admin : Address) (id amount : ℕ) {s t : Store World}
      → PlansAreSound s
      → Reach x s t
      → Fails (recall_loan l admin id amount t) × Fails (liquidation_fallback l admin id t)
  recall_loan-Fails l admin id amount {s} {t} i r =
      let sound = Reach-PlansAreSound i r in
      elim (Option-cases (t.plans id)) [
        | inl missing ↦ no_loans l admin id amount t (inl missing)
        | inr (p, found) ↦
            no_loans l admin id amount t (inr (p, found, (sound.plans id p found).unlent))
      ]
