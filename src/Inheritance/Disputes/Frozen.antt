-- ===== src/Inheritance/Disputes/Frozen.antt =====
-- contracts/inheritance-contract/src/lib.rs: what a raised dispute stops.
use xource_x.Prelude.{
  ℕ, ◌+◌, ◌<◌, ◌≡◌, refl, sym, subst, true, false, some, List, arith, inl, inr, is_some,
}
use xource_x.Prelude.Words.{u64_mod}
use xource_x.Prelude.Outcome.{Outcome, ok, err, trap, Fails, Returns, Outcome-cases}
use xource_x.Prelude.Dict.{or_default}
use xource_x.AccessControl.{Address}
use xource_x.Inheritance.Types.{Bytes, InheritancePlan}
use xource_x.Inheritance.Store.{External, Ledger, Store}
use xource_x.Inheritance.Plans.{deposit, withdraw}
use xource_x.Inheritance.Plans.Funds.{withdraw-PlanWithdrawn, deposit-PlanDeposited}
use xource_x.Inheritance.Triggers.{trigger_inheritance, guardian_emergency_trigger}
use xource_x.Inheritance.Triggers.Guardians.{
  trigger_inheritance-Triggered, guardian_emergency_trigger-Approved,
}
use xource_x.Inheritance.Claims.{claim_inheritance_plan}
use xource_x.Inheritance.Claims.Effects.{claim_inheritance_plan-PlanClaimed}
use xource_x.Inheritance.Disputes.{open_dispute, raise_dispute}

-- What cannot succeed does fail.
Fails-of : {E A : Type 0} (o : Outcome E A) → ((a : A) → o ≡ ok a → ⊥) → Fails o
Fails-of (ok a) never = never a refl
Fails-of (err e) never = tt
Fails-of trap never = tt

Returns-of :
    {S E A : Type 0} (P : A → S → Type 0) {o : Outcome E (A × S)} {a : A} {s : S}
    → o ≡ ok (a, s)
    → P a s
    → Returns P o
Returns-of P h p = subst (Returns P) (sym h) p

module _ (x : External) where
  open x use {World}

  module _ (id : ℕ) (t : Store World) (frozen : is_some (t.freezes id) ≡ true) where
    frozen-Fails :
        (l : Ledger) (who token : Address) (amount : ℕ) (email : Bytes) (code : ℕ)
        (signers : List Address)
        → Fails (withdraw x l who token id amount t)
          × Fails (deposit x l who token id amount t)
          × Fails (claim_inheritance_plan x l id who email code t)
          × Fails (trigger_inheritance l who id t)
          × Fails (guardian_emergency_trigger l id signers t)
    frozen-Fails l who token amount email code signers = (
      Fails-of _ (λ r h.
          ground (arith, frozen, (withdraw-PlanWithdrawn x l who token id amount t r.1 h).thawed)),
      Fails-of _ (λ r h.
          ground (arith, frozen, (deposit-PlanDeposited x l who token id amount t r.1 h).thawed)),
      Fails-of _ (λ r h. ground (
        arith,
        frozen,
        (claim_inheritance_plan-PlanClaimed x l id who email code t r.1 h).thawed,
      )),
      Fails-of _ (λ r h.
          ground (arith, frozen, (trigger_inheritance-Triggered l who id t r.1 h).2.thawed)),
      Fails-of _ (λ r h.
          ground
            (arith, frozen, (guardian_emergency_trigger-Approved l id signers t r.1 h).5.thawed)),
    )

  -- Anyone who authorises the call can raise a dispute over a stored plan while the contract is not
  -- paused, has an admin, and has dispute ids left. In the state that this leaves, whatever the time is
  -- and whoever calls, `withdraw`, `deposit`, `claim_inheritance_plan`, `trigger_inheritance` and
  -- `guardian_emergency_trigger` fail for the plan. The automatic trigger is not among them.
  pub raise_dispute-Frozen :
      (l m : Ledger) (id : ℕ) (challenger admin : Address) (plan : InheritancePlan)
      (who token : Address) (amount : ℕ) (email : Bytes) (code : ℕ) (signers : List Address)
      (s : Store World)
      → l.authorized challenger ≡ true
      → s.plans id ≡ some plan
      → s.admin ≡ some admin
      → s.access.paused ≡ false
      → s.access.pause_lock ≡ false
      → or_default 0 s.next_dispute_id + 1 < u64_mod
      → Returns
          (λ dispute_id t.
            Fails (withdraw x m who token id amount t)
            × Fails (deposit x m who token id amount t)
            × Fails (claim_inheritance_plan x m id who email code t)
            × Fails (trigger_inheritance m who id t)
            × Fails (guardian_emergency_trigger m id signers t))
          (raise_dispute l id challenger s)
  unfolding raise_dispute open_dispute
  raise_dispute-Frozen l m id challenger admin plan who token amount email code signers s auth found
        set on unlocked bound =
      elim (Outcome-cases (raise_dispute l id challenger s)) [
        | inl ((dispute_id, t), e) ↦
            let frozen : is_some (t.freezes id) ≡ true = ground arith in
            Returns-of _ e (frozen-Fails id t frozen m who token amount email code signers)
        | inr (inl (e, failed)) ↦ absurd (ground arith)
        | inr (inr trapped) ↦ absurd (ground arith)
      ]
