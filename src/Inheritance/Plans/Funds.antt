-- ===== src/Inheritance/Plans/Funds.antt =====
-- contracts/inheritance-contract/src/lib.rs: what a deposit into a plan and a withdrawal from it do.
use xource_x.Prelude.{
  ℕ, ◌+◌, ◌-◌, ◌≤◌, ◌<◌, ◌≡◌, true, none, some, arith, Option-cases, Bool-cases, inl, inr,
}
use xource_x.Prelude.Words.{u64_mod}
use xource_x.Prelude.Outcome.{ok, >>=-eq-ok, Outcome-cases}
use xource_x.Prelude.Dict.{update}
use xource_x.AccessControl.{Address}
use xource_x.Inheritance.Types.{InheritancePlan}
use xource_x.Inheritance.Store.{External, Ledger, Store}
use xource_x.Inheritance.Emergency.{in_cooldown, is_emergency_active}
use xource_x.Inheritance.Emergency.Expiry.{OnlyAccess, is_emergency_active-lem}
use xource_x.Inheritance.Books.{SameClaims, locked}
use xource_x.Inheritance.Plans.{emergency_limit, check_emergency_limit, deposit, withdraw}

module _ {W : Type 0} where
  -- The plan is neither frozen nor under a legal hold.
  abbrev pub NotFrozen : ℕ → Store W → Type 0
  NotFrozen plan_id s = (s.freezes plan_id ≡ none) × (s.legal_holds plan_id ≡ none)

  -- Emergency access to the plan was activated in the last 24 hours.
  abbrev pub InCooldown : Ledger → ℕ → Store W → Type 0
  InCooldown l plan_id s = in_cooldown l.timestamp (s.emergency_access plan_id) ≡ true

  pub check_emergency_limit-lem :
      (l : Ledger) (plan_id : ℕ) (plan : InheritancePlan) (amount : ℕ) (s t : Store W)
      → check_emergency_limit l plan_id plan amount s ≡ ok (tt, t)
      → OnlyAccess l plan_id s t × (InCooldown l plan_id s → amount ≤ emergency_limit plan)
  unfolding check_emergency_limit
  check_emergency_limit-lem l plan_id plan amount s t h =
      let (active, u, e, k) = >>=-eq-ok (is_emergency_active l plan_id) _ s h in
      let (only, same) = is_emergency_active-lem l plan_id active s u e in
      elim (Bool-cases active) [
        | inl y ↦ (ground arith, λ c. ground arith)
        | inr n ↦ (ground arith, λ c. absurd (ground arith))
      ]

module _ (x : External) (l : Ledger) where
  open x use {World}

  -- What a successful withdrawal has checked and done.
  pub record PlanWithdrawn (caller token : Address) (plan_id amount : ℕ) (s t : Store World)
      : Type 0 where
    pub plan : InheritancePlan
    pub vault : Address
    pub found : s.plans plan_id ≡ some plan
    pub by_owner : (l.authorized caller ≡ true) × (plan.owner ≡ caller)
    pub own_token : plan.token ≡ token
    pub thawed : NotFrozen plan_id s
    pub positive : 0 < amount
    pub liquid : amount + plan.total_loaned ≤ plan.total_amount
    pub limited : InCooldown l plan_id s → amount ≤ emergency_limit plan
    pub held_by : s.plan_vaults plan_id ≡ some vault
    pub paid : x.release vault token caller amount s.world ≡ some t.world
    pub stored :
        t.plans
        ≡ update plan_id (some (record plan { total_amount = plan.total_amount - amount })) s.plans
    pub counter : t.next_plan_id ≡ s.next_plan_id
    pub claims : SameClaims s t

  -- A successful withdrawal is one that the plan's owner has authorised, in the plan's token, from a
  -- plan that is neither frozen nor on hold. It is positive, within the funds that are not lent
  -- and, in an emergency's cooldown, within the emergency limit. The vault pays the owner exactly what
  -- the plan's total falls by; no claim changes.
  pub withdraw-PlanWithdrawn :
      (caller token : Address) (plan_id amount : ℕ) (s t : Store World)
      → withdraw x l caller token plan_id amount s ≡ ok (tt, t)
      → PlanWithdrawn caller token plan_id amount s t
  unfolding withdraw
  withdraw-PlanWithdrawn caller token plan_id amount s t h = elim (Option-cases (s.plans plan_id)) [
    | inl missing ↦ absurd (ground arith)
    | inr (plan, found) ↦
        elim (Outcome-cases (check_emergency_limit l plan_id plan amount (locked s))) [
          | inr (inl (e, failed)) ↦ absurd (ground arith)
          | inr (inr trapped) ↦ absurd (ground arith)
          | inl ((done, u), once) ↦
              elim (Outcome-cases (check_emergency_limit l plan_id plan amount u)) [
                | inr (inl (e, failed)) ↦ absurd (ground arith)
                | inr (inr trapped) ↦ absurd (ground arith)
                | inl ((done', v), twice) ↦
                    let (first, limit) =
                      check_emergency_limit-lem l plan_id plan amount (locked s) u once in
                    let (second, limit') =
                      check_emergency_limit-lem l plan_id plan amount u v twice in
                    elim (Option-cases (s.plan_vaults plan_id)) [
                      | inl missing ↦ absurd (ground arith)
                      | inr (vault, held) ↦ record {
                        plan = plan;
                        vault = vault;
                        found = found;
                        by_owner = ground arith;
                        own_token = ground arith;
                        thawed = ground arith;
                        positive = ground arith;
                        liquid = ground arith;
                        limited = limit;
                        held_by = held;
                        paid = ground arith;
                        stored = ground arith;
                        counter = ground arith;
                        claims = ground arith;
                      }
                    ]
              ]
        ]
  ]

  -- What a successful deposit has checked and done.
  pub record PlanDeposited (caller token : Address) (plan_id amount : ℕ) (s t : Store World)
      : Type 0 where
    pub plan : InheritancePlan
    pub vault : Address
    pub found : s.plans plan_id ≡ some plan
    pub by_owner : (l.authorized caller ≡ true) × (plan.owner ≡ caller)
    pub own_token : plan.token ≡ token
    pub active : plan.is_active ≡ true
    pub thawed : NotFrozen plan_id s
    pub positive : 0 < amount
    pub bounded : plan.total_amount + amount < u64_mod
    pub held_by : s.plan_vaults plan_id ≡ some vault
    pub paid : x.transfer token caller vault amount s.world ≡ some t.world
    pub stored :
        t.plans
        ≡ update plan_id (some (record plan { total_amount = plan.total_amount + amount })) s.plans
    pub counter : t.next_plan_id ≡ s.next_plan_id
    pub claims : SameClaims s t

  -- A successful deposit is one that the plan's owner has authorised, in the plan's token, into an
  -- active plan that is neither frozen nor on hold, and the plan's vault gets exactly what the plan's
  -- total rises by; no claim changes.
  pub deposit-PlanDeposited :
      (caller token : Address) (plan_id amount : ℕ) (s t : Store World)
      → deposit x l caller token plan_id amount s ≡ ok (tt, t)
      → PlanDeposited caller token plan_id amount s t
  unfolding deposit
  deposit-PlanDeposited caller token plan_id amount s t h = elim (Option-cases (s.plans plan_id)) [
    | inl missing ↦ absurd (ground arith)
    | inr (plan, found) ↦ elim (Option-cases (s.plan_vaults plan_id)) [
      | inl missing ↦ absurd (ground arith)
      | inr (vault, held) ↦ record {
        plan = plan;
        vault = vault;
        found = found;
        by_owner = ground arith;
        own_token = ground arith;
        active = ground arith;
        thawed = ground arith;
        positive = ground arith;
        bounded = ground arith;
        held_by = held;
        paid = ground arith;
        stored = ground arith;
        counter = ground arith;
        claims = ground arith;
      }
    ]
  ]
