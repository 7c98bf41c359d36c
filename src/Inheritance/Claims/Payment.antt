-- ===== src/Inheritance/Claims/Payment.antt =====
-- contracts/inheritance-contract/src/lib.rs: what the payment of a claim has done.
use xource_x.Prelude.{
  ℕ, ◌-◌, ◌≤◌, ◌<◌, ◌≡◌, refl, Bool, true, false, ◌||◌, some, arith, Option-cases, inl, inr,
  is_some, ◌==◌,
}
use xource_x.Prelude.Lists.{set}
use xource_x.Prelude.Outcome.{ok, >>=-eq-ok, Outcome-cases}
use xource_x.Prelude.Dict.{update, or_default}
use xource_x.AccessControl.{Address, assign_role}
use xource_x.Inheritance.Types.{InheritancePlan, Beneficiary}
use xource_x.Inheritance.Store.{
  External, Ledger, Store, bytes_eq_self, store_plan, add_plan_to_claimed,
}
use xource_x.Inheritance.Vaults.{release_from_plan_vault}
use xource_x.Inheritance.Hashing.{claim_key}
use xource_x.Inheritance.Books.{KeepsClaims}
use xource_x.Inheritance.Plans.{emergency_limit, check_emergency_limit}
use xource_x.Inheritance.Plans.Funds.{InCooldown, check_emergency_limit-lem}
use xource_x.Inheritance.Claims.{Claim, waterfall_payout, settled_payout, book_claim, pay_claim}

-- A claim settles the beneficiary: no exit settlement is left over.
abbrev pub is_final : ℕ → ℕ → Bool
is_final payout exit_settlement = exit_settlement == 0 || (exit_settlement - payout == 0)

-- The plan once a beneficiary has been paid.
unfoldable pub paid_plan : InheritancePlan → ℕ → Beneficiary → Bool → ℕ → InheritancePlan
paid_plan plan index b final payout = record plan {
  beneficiaries = set plan.beneficiaries index (record b { is_claimed = b.is_claimed || final });
  total_amount = plan.total_amount - payout;
}

module _ (x : External) (l : Ledger) (plan_id : ℕ) where
  open x use {World, sha256}

  -- What the payment has done to a store.
  pub record Paid (claimer : Address) (c : Claim) (s t : Store World) : Type 0 where
    pub settlement : ℕ
    pub payout : ℕ
    pub vault : Address
    pub owed : settlement ≡ or_default 0 (s.exit_settlements plan_id c.index)
    pub amount : payout ≡ settled_payout (waterfall_payout c.plan c.beneficiary) settlement
    pub positive : 0 < payout
    pub limited : InCooldown l plan_id s → payout ≤ emergency_limit c.plan
    pub liquid : c.triggered ≡ false → payout ≤ c.plan.total_amount - c.plan.total_loaned
    pub held_by : s.plan_vaults plan_id ≡ some vault
    pub paid : x.release vault c.plan.token claimer payout s.world ≡ some t.world
    pub stored :
        t.plans
        ≡ update plan_id
            (some (paid_plan c.plan c.index c.beneficiary (is_final payout settlement) payout))
            s.plans
    pub recorded :
        is_final payout settlement ≡ true
        → is_some (t.claims (claim_key x plan_id c.hashed_email)) ≡ true
    pub claims : KeepsClaims s t
    pub vaults : t.plan_vaults ≡ s.plan_vaults
    pub same_triggers : t.triggers ≡ s.triggers
    pub counter : t.next_plan_id ≡ s.next_plan_id

  -- What is booked: the plan and, where the claim is final, its record.
  record Booked (c : Claim) (payout settlement : ℕ) (s t : Store World) : Type 0 where
    stored :
        t.plans
        ≡ update plan_id
            (some (paid_plan c.plan c.index c.beneficiary (is_final payout settlement) payout))
            s.plans
    recorded :
        is_final payout settlement ≡ true
        → is_some (t.claims (claim_key x plan_id c.hashed_email)) ≡ true
    claims : KeepsClaims s t
    only : t ≡ record s {
      plans = t.plans;
      claims = t.claims;
      exit_settlements = t.exit_settlements;
      user_claimed = t.user_claimed;
      all_claimed = t.all_claimed;
    }

  book_claim-Booked :
      (c : Claim) (payout settlement : ℕ) (s t : Store World)
      → book_claim x l plan_id c payout settlement s ≡ ok (tt, t)
      → Booked c payout settlement s t
  unfolding book_claim store_plan add_plan_to_claimed paid_plan
  book_claim-Booked c payout settlement s t h = record {
    stored = ground arith;
    recorded = λ f. ground (arith, bytes_eq_self (claim_key x plan_id c.hashed_email));
    claims = λ key k. ground arith;
    only = ground arith;
  }

  pub pay_claim-Paid :
      (claimer : Address) (c : Claim) (s t : Store World)
      → pay_claim x l plan_id claimer c s ≡ ok (tt, t)
      → Paid claimer c s t
  unfolding pay_claim release_from_plan_vault assign_role
  pay_claim-Paid claimer c s t h =
      let settlement = or_default 0 (s.exit_settlements plan_id c.index) in
      let payout = settled_payout (waterfall_payout c.plan c.beneficiary) settlement in
      let (done, u, e, k) = >>=-eq-ok (check_emergency_limit l plan_id c.plan payout) _ s h in
      let (only, limit) = check_emergency_limit-lem l plan_id c.plan payout s u e in
      elim (Option-cases (s.plan_vaults plan_id)) [
        | inl missing ↦ absurd (ground arith)
        | inr (vault, held) ↦
            elim (Option-cases (x.release vault c.plan.token claimer payout u.world)) [
              | inl failed ↦ absurd (ground arith)
              | inr (w, out) ↦
                  elim (Outcome-cases
                    (book_claim x l plan_id c payout settlement (record u { world = w }))) [
                      | inr (inl (e, failed)) ↦ absurd (ground arith)
                      | inr (inr trapped) ↦ absurd (ground arith)
                      | inl ((d, v), booking) ↦
                          let b =
                            book_claim-Booked c payout settlement (record u { world = w }) v
                              booking in
                          record {
                            settlement = settlement;
                            payout = payout;
                            vault = vault;
                            owed = refl;
                            amount = refl;
                            positive = ground arith;
                            limited = limit;
                            liquid = λ n. ground arith;
                            held_by = held;
                            paid = ground (arith, b.only);
                            stored = ground (arith, b.stored);
                            recorded = λ f. ground (arith, b.recorded f);
                            claims = λ key k. ground (arith, b.claims key (ground arith));
                            vaults = ground (arith, b.only);
                            same_triggers = ground (arith, b.only);
                            counter = ground (arith, b.only);
                          }
                    ]
            ]
      ]
