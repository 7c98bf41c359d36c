-- ===== src/Inheritance/Books.antt =====
-- contracts/inheritance-contract/src/lib.rs: when the stored plans are in order, and the operations on
-- their beneficiaries keep them so.
use xource_x.Prelude.{
  ℕ, ◌+◌, ◌-◌, ◌≤◌, ◌≡◌, some, List, [], ◌∷◌, ◌++◌, arith, true, Option-cases, inl, inr, is_some,
}
use xource_x.Prelude.Words.{u32_mod, saturating_add_u32}
use xource_x.Prelude.Lists.{length, get_elem?}
use xource_x.Prelude.Outcome.{ok, >>=-eq-ok, Outcome-cases}
use xource_x.Prelude.Dict.{update}
use xource_x.AccessControl.{Address}
use xource_x.Inheritance.Types.{Bytes, Beneficiary, BeneficiaryInput, InheritancePlan}
use xource_x.Inheritance.Store.{External, Ledger, Store, add_below}
use xource_x.Inheritance.Beneficiaries.{
  swap_remove, create_beneficiary, create_beneficiaries, add_beneficiary, remove_beneficiary,
}
use xource_x.Inheritance.Allocations.{
  allocations, asked_for, allocations-push, length-push, swap_remove_sum,
}

-- A plan is in order: its total is the sum of its beneficiaries' allocations and at most 100%, it has
-- at most 10 beneficiaries, and none of its funds are marked as lent.
pub record PlanIsSound (p : InheritancePlan) : Type 0 where
  pub allocated : p.total_allocation_bp ≡ allocations p.beneficiaries
  pub within : p.total_allocation_bp ≤ 10_000
  pub counted : length p.beneficiaries ≤ 10
  pub unlent : p.total_loaned ≡ 0

module _ {W : Type 0} where
  -- The state once the reentrancy lock is taken.
  abbrev pub locked : Store W → Store W
  locked s = record s { access = record (s.access) { reentrancy_lock = true } }

  -- The claims and the vaults of the plans are as they were.
  abbrev pub SameClaims : Store W → Store W → Type 0
  SameClaims s t = (t.claims ≡ s.claims) × (t.plan_vaults ≡ s.plan_vaults)

  -- Neither a plan nor the next id has changed.
  abbrev pub SamePlans : Store W → Store W → Type 0
  SamePlans s t = (t.plans ≡ s.plans) × (t.next_plan_id ≡ s.next_plan_id) × SameClaims s t

  -- A claim that is recorded stays recorded.
  abbrev pub KeepsClaims : Store W → Store W → Type 0
  KeepsClaims s t = (key : Bytes) → is_some (s.claims key) ≡ true → is_some (t.claims key) ≡ true

  -- One stored plan has changed, and is in order if it was.
  pub record PlanChanged (s t : Store W) : Type 0 where
    pub plan_id : ℕ
    pub before : InheritancePlan
    pub after : InheritancePlan
    pub found : s.plans plan_id ≡ some before
    pub stored : t.plans ≡ update plan_id (some after) s.plans
    pub counter : t.next_plan_id ≡ s.next_plan_id
    pub claims : KeepsClaims s t
    pub vaults : t.plan_vaults ≡ s.plan_vaults
    pub sound : PlanIsSound before → PlanIsSound after

  pub remove_beneficiary-PlanChanged :
      (l : Ledger) (owner : Address) (plan_id index : ℕ) (s t : Store W)
      → remove_beneficiary l owner plan_id index s ≡ ok (tt, t)
      → PlanChanged s t
  unfolding remove_beneficiary
  remove_beneficiary-PlanChanged l owner plan_id index s t h =
      elim (Option-cases (s.plans plan_id)) [
        | inl missing ↦ absurd (ground arith)
        | inr (plan, found) ↦ elim (Option-cases (get_elem? plan.beneficiaries index)) [
          | inl missing ↦ absurd (ground arith)
          | inr (b, at) ↦
              let (sum, count) = swap_remove_sum plan.beneficiaries index b at in
              record {
                plan_id = plan_id;
                before = plan;
                after = record plan {
                  beneficiaries = swap_remove plan.beneficiaries index;
                  total_allocation_bp = plan.total_allocation_bp - b.allocation_bp;
                };
                found = found;
                stored = ground arith;
                counter = ground arith;
                claims = λ key c. ground arith;
                vaults = ground arith;
                sound = λ p. record {
                  allocated = omega (arith, p.allocated);
                  within = omega (arith, p.within);
                  counted = omega (arith, p.counted);
                  unlent = p.unlent;
                };
              }
        ]
      ]

module _ (x : External) where
  open x use {World}

  create_beneficiary-allocation :
      (plan_id index : ℕ) (input : BeneficiaryInput) (b : Beneficiary) (s t : Store World)
      → create_beneficiary x plan_id index input s ≡ ok (b, t)
      → (b.allocation_bp ≡ input.allocation_bp) × SamePlans s t
  unfolding create_beneficiary
  create_beneficiary-allocation plan_id index input b s t h = ground arith

  pub create_beneficiaries-sum :
      (plan_id index total : ℕ) (bs : List BeneficiaryInput) (made : List Beneficiary × ℕ)
      (s t : Store World)
      → create_beneficiaries x plan_id index total bs s ≡ ok (made, t)
      → (made.1 ≡ total + asked_for bs)
        × (allocations made.0 ≡ asked_for bs)
        × (length made.0 ≡ length bs)
        × SamePlans s t
  unfolding create_beneficiaries asked_for allocations length
  create_beneficiaries-sum plan_id index total [] made s t h = ground arith
  create_beneficiaries-sum plan_id index total (b ∷ bs) made s t h =
      let (first, s1, e1, k1) = >>=-eq-ok (create_beneficiary x plan_id index b) _ s h in
      let (sum, s2, e2, k2) = >>=-eq-ok (add_below u32_mod total b.allocation_bp) _ s1 k1 in
      let (rest, s3, e3, k3) =
        >>=-eq-ok (create_beneficiaries x plan_id (saturating_add_u32 index 1) sum bs) _ s2 k2 in
      let (a, same) = create_beneficiary-allocation plan_id index b first s s1 e1 in
      let (all, sums, counts, same') =
        create_beneficiaries-sum plan_id (saturating_add_u32 index 1) sum bs rest s2 s3 e3 in
      ground arith

  pub add_beneficiary-PlanChanged :
      (l : Ledger) (owner : Address) (plan_id : ℕ) (input : BeneficiaryInput) (s t : Store World)
      → add_beneficiary x l owner plan_id input s ≡ ok (tt, t)
      → PlanChanged s t
  unfolding add_beneficiary
  add_beneficiary-PlanChanged l owner plan_id input s t h = elim (Option-cases (s.plans plan_id)) [
    | inl missing ↦ absurd (ground arith)
    | inr (plan, found) ↦
        elim (Outcome-cases
          (create_beneficiary x plan_id (length plan.beneficiaries) input (locked s))) [
            | inl ((b, u), made) ↦
                let (share, same) =
                  create_beneficiary-allocation plan_id (length plan.beneficiaries) input b
                    (locked s) u made in
                record {
                  plan_id = plan_id;
                  before = plan;
                  after = record plan {
                    beneficiaries = plan.beneficiaries ++ b ∷ [];
                    total_allocation_bp = plan.total_allocation_bp + input.allocation_bp;
                  };
                  found = found;
                  stored = ground arith;
                  counter = ground arith;
                  claims = λ key c. ground arith;
                  vaults = ground arith;
                  sound = λ p. ground (
                    arith,
                    p.allocated,
                    p.within,
                    p.counted,
                    p.unlent,
                    allocations-push plan.beneficiaries b,
                    length-push plan.beneficiaries b,
                  );
                }
            | inr (inl (e, failed)) ↦ absurd (ground arith)
            | inr (inr trapped) ↦ absurd (ground arith)
          ]
  ]
