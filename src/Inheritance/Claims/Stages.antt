-- ===== src/Inheritance/Claims/Stages.antt =====
-- contracts/inheritance-contract/src/lib.rs: what the first stages of a claim have checked.
use xource_x.Prelude.{
  ℕ, ◌+◌, ◌≤◌, ◌≡◌, Bool, true, false, some, arith, Option-cases, ◌⊎◌, inl, inr, is_some, ◌==◌,
  subst,
}
use xource_x.Prelude.Outcome.{ok, >>=-eq-ok, Outcome-cases}
use xource_x.AccessControl.{Address}
use xource_x.Inheritance.Types.{InheritancePlan, KycStatus}
use xource_x.Inheritance.Store.{
  Ledger, Store, reject_blacklisted, check_not_paused, enter_guard, check_kyc_approved, get_plan,
  check_not_frozen,
}
use xource_x.Inheritance.Hashing.{check_and_record_claim_attempt}
use xource_x.Inheritance.Triggers.{auto_trigger_check, auto_trigger_ignored}
use xource_x.Inheritance.Triggers.Effects.{OnlyTrigger, Triggered, auto_trigger_check-lem}
use xource_x.Inheritance.Plans.Funds.{NotFrozen}
use xource_x.Inheritance.Claims.{waiting_period, is_claim_time_valid, admit_claim, reach_claim_time}

module _ {W : Type 0} (l : Ledger) (plan_id : ℕ) where
  -- At most the reentrancy lock and the counts of attempts have changed.
  abbrev pub OnlyAttempt : Store W → Store W → Type 0
  OnlyAttempt s t = t ≡ record s {
    access = record (s.access) { reentrancy_lock = true };
    claim_attempts = t.claim_attempts;
  }

  pub record Admitted (claimer : Address) (plan : InheritancePlan) (s t : Store W) : Type 0 where
    pub found : s.plans plan_id ≡ some plan
    pub by_claimer : (l.authorized claimer ≡ true) × (s.access.blacklisted claimer ≡ false)
    pub approved : (k : KycStatus) × (s.kyc claimer ≡ some k) × (k.approved ≡ true)
    pub active : plan.is_active ≡ true
    pub thawed : NotFrozen plan_id s
    pub only : OnlyAttempt s t

  pub admit_claim-Admitted :
      (claimer : Address) (plan : InheritancePlan) (s t : Store W)
      → admit_claim l plan_id claimer s ≡ ok (plan, t)
      → Admitted claimer plan s t
  unfolding admit_claim reject_blacklisted check_not_paused enter_guard check_kyc_approved get_plan
      check_not_frozen check_and_record_claim_attempt
  admit_claim-Admitted claimer plan s t h = elim (Option-cases (s.plans plan_id)) [
    | inl missing ↦ absurd (ground arith)
    | inr (p, found) ↦ elim (Option-cases (s.kyc claimer)) [
      | inl missing ↦ absurd (ground arith)
      | inr (k, status) ↦ record {
        found = ground arith;
        by_claimer = ground arith;
        approved = (k, status, ground arith);
        active = ground arith;
        thawed = ground arith;
        only = ground arith;
      }
    ]
  ]

  auto_trigger_ignored-lem :
      (s t : Store W)
      → auto_trigger_ignored l plan_id s ≡ ok (tt, t)
      → (t ≡ s) ⊎ (OnlyTrigger l plan_id s t × Triggered l plan_id s t)
  unfolding auto_trigger_ignored
  auto_trigger_ignored-lem s t h = elim (Outcome-cases (auto_trigger_check l plan_id s)) [
    | inl ((done, u), e) ↦ elim (auto_trigger_check-lem l plan_id s u e) [
      | inl same ↦ inl (ground arith)
      | inr (met, only, fired) ↦
          let e' : u ≡ t = ground arith in
          inr (subst (λ v. OnlyTrigger l plan_id s v × Triggered l plan_id s v) e' (only, fired))
    ]
    | inr (inl (e, failed)) ↦ inl (ground arith)
    | inr (inr trapped) ↦ absurd (ground arith)
  ]

  -- The plan's balance and beneficiaries are those of `s`; at most its trigger has fired.
  pub record Timely (plan : InheritancePlan) (triggered : Bool) (s t : Store W) : Type 0 where
    pub only : OnlyTrigger l plan_id s t
    pub others : (j : ℕ) → (plan_id == j) ≡ false → t.plans j ≡ s.plans j
    pub state : is_some (t.triggers plan_id) ≡ triggered
    pub ripe :
        triggered ≡ false → plan.created_at + waiting_period plan.distribution_method ≤ l.timestamp

  pub reach_claim_time-Timely :
      (plan : InheritancePlan) (triggered : Bool) (s t : Store W)
      → reach_claim_time l plan_id plan s ≡ ok (triggered, t)
      → Timely plan triggered s t
  unfolding reach_claim_time is_claim_time_valid
  reach_claim_time-Timely plan triggered s t h =
      let (done, u, e, k) = >>=-eq-ok (auto_trigger_ignored l plan_id) _ s h in
      let same : t ≡ u = ground arith in
      elim (auto_trigger_ignored-lem s u e) [
        | inl kept ↦ record {
          only = ground arith;
          others = λ j d. ground arith;
          state = ground arith;
          ripe = λ n. ground arith;
        }
        | inr (only, fired) ↦ record {
          only = ground arith;
          others = λ j d. ground arith;
          state = ground arith;
          ripe = λ n. ground arith;
        }
      ]
