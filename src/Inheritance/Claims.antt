-- ===== src/Inheritance/Claims.antt =====
-- contracts/inheritance-contract/src/lib.rs: how a beneficiary claims a plan. The entry point is the
-- composition of four stages, in the order of the source.
pub mod Search
pub mod Stages
pub mod Payment
pub mod Effects
pub mod Payouts
use xource_x.Prelude.{
  ℕ, ◌+◌, ◌-◌, ◌*◌, ◌/◌, Bool, true, false, not, ◌&&◌, ◌||◌, Option, none, some, List, [], ◌∷◌, ltb,
  leb, ◌==◌, if◌then◌else◌, is_some, min,
}
use xource_x.Prelude.Words.{as_u64, mul_div_u128}
use xource_x.Prelude.Lists.{length, is_empty, get_elem?, set, take}
use xource_x.Prelude.Outcome.{◌>>=◌, ◌>>◌, pure, gets, modify, raise_if, panic_if, or_raise, unwrap}
use xource_x.Prelude.Dict.{update, or_default}
use xource_x.AccessControl.{Address, Role, assign_role}
use xource_x.Inheritance.Types.{
  Bytes, Beneficiary, InheritancePlan, DistributionMethod, lump_sum, monthly, quarterly, yearly,
  ClaimRecord, plan_not_active, claim_not_allowed_yet, already_claimed, beneficiary_not_found,
  unauthorized, insufficient_liquidity, nothing_to_claim, invalid_beneficiary_index,
  claim_succeeded, fiat_payout_requested,
}
use xource_x.Inheritance.Store.{
  External, Ledger, Store, Action, bytes_eq, update_bytes, access_call, emit, require_auth,
  sub_or_trap, reject_blacklisted, enter_guard, exit_guard, check_not_paused, check_kyc_approved,
  get_plan, store_plan, check_not_frozen, add_plan_to_claimed,
}
use xource_x.Inheritance.Vaults.{release_from_plan_vault}
use xource_x.Inheritance.Hashing.{
  zero_salt, check_and_record_claim_attempt, hash_string, hash_claim_code_with_salt, claim_key,
}
use xource_x.Inheritance.Triggers.{auto_trigger_ignored}
use xource_x.Inheritance.Plans.{check_emergency_limit}

abbrev pub max_beneficiaries : ℕ
max_beneficiaries = 10

-- The seconds that the method of a plan waits for after its creation.
abbrev pub waiting_period : DistributionMethod → ℕ
waiting_period lump_sum = 0
waiting_period monthly = 2_592_000
waiting_period quarterly = 7_776_000
waiting_period yearly = 31_536_000

-- The waterfall's test: has a beneficiary of a smaller priority number above 0 not claimed yet?
unfoldable pub must_wait : ℕ → List Beneficiary → Bool
must_wait priority [] = false
must_wait priority (b ∷ rest) =
    not (b.priority == 0) && ltb b.priority priority && not b.is_claimed || must_wait priority rest

-- The allocation's part of the balance that is left, rounded down.
unfoldable pub entitlement : InheritancePlan → Beneficiary → ℕ
entitlement plan b =
    min (as_u64 (mul_div_u128 plan.total_amount b.allocation_bp 10_000)) plan.total_amount

unfoldable pub waterfall_payout : InheritancePlan → Beneficiary → ℕ
unfolding entitlement
waterfall_payout plan b =
    if plan.waterfall_enabled && must_wait b.priority plan.beneficiaries
    then 0
    else entitlement plan b

-- The payout, which an exit settlement above 0 caps.
abbrev pub settled_payout : ℕ → ℕ → ℕ
settled_payout payout exit_settlement =
    if ltb 0 exit_settlement then min payout exit_settlement else payout

-- What the search of a claim has found, and what it settles on.
pub record Claim : Type 0 where
  pub plan : InheritancePlan
  pub triggered : Bool
  pub hashed_email : Bytes
  pub index : ℕ
  pub beneficiary : Beneficiary

module _ {W : Type 0} where
  unfoldable pub is_claim_time_valid : Ledger → InheritancePlan → Action W Bool
  is_claim_time_valid l plan = do
    elapsed ← sub_or_trap l.timestamp plan.created_at
    pure (leb (waiting_period plan.distribution_method) elapsed)

  unfoldable pub calculate_waterfall_payout : InheritancePlan → ℕ → Action W ℕ
  unfolding waterfall_payout
  calculate_waterfall_payout plan beneficiary_index = do
    beneficiary ← unwrap (get_elem? plan.beneficiaries beneficiary_index)
    pure (waterfall_payout plan beneficiary)

  unfoldable pub get_claimable_by_priority : ℕ → ℕ → Action W ℕ
  unfolding get_plan calculate_waterfall_payout
  get_claimable_by_priority plan_id beneficiary_index = do
    plan ← get_plan plan_id
    raise_if (leb (length plan.beneficiaries) beneficiary_index) invalid_beneficiary_index
    calculate_waterfall_payout plan beneficiary_index

  -- The tests of the caller and of the plan, and the count of the attempt.
  unfoldable pub admit_claim : Ledger → ℕ → Address → Action W InheritancePlan
  admit_claim l plan_id claimer = do
    require_auth l claimer
    reject_blacklisted claimer
    check_not_paused
    enter_guard
    check_kyc_approved claimer
    plan ← get_plan plan_id
    raise_if (not plan.is_active) plan_not_active
    check_not_frozen plan_id
    check_and_record_claim_attempt l plan_id claimer
    pure plan

  -- The trigger is brought up to date, and the plan has been triggered or its time has come.
  unfoldable pub reach_claim_time : Ledger → ℕ → InheritancePlan → Action W Bool
  reach_claim_time l plan_id plan = do
    auto_trigger_ignored l plan_id
    info ← gets (λ s. s.triggers plan_id)
    if is_some info then pure true else (do
      valid ← is_claim_time_valid l plan
      raise_if (not valid) claim_not_allowed_yet
      pure false)

module _ (x : External) where
  open x use {World}

  -- The search for the beneficiary, from index `i` on: the first whose email and claim code fit.
  unfoldable pub find_beneficiary :
      ℕ → Bytes → ℕ → ℕ → List Beneficiary → Action World (Option (ℕ × Beneficiary))
  find_beneficiary plan_id hashed_email claim_code i [] = pure none
  find_beneficiary plan_id hashed_email claim_code i (b ∷ rest) =
      elim (bytes_eq b.hashed_email hashed_email) [
        | true ↦ (do
          salt ← gets (λ s. or_default zero_salt (s.salts plan_id i))
          hashed_claim_code ← hash_claim_code_with_salt x claim_code salt
          elim (bytes_eq b.hashed_claim_code hashed_claim_code) [
            | true ↦ pure (some (i, b))
            | false ↦ find_beneficiary plan_id hashed_email claim_code (i + 1) rest
          ])
        | false ↦ find_beneficiary plan_id hashed_email claim_code (i + 1) rest
      ]

  -- The beneficiary that an email and a claim code name, who has not claimed, is not frozen and need
  -- not wait. Only the first 10 beneficiaries are looked at.
  unfoldable pub identify : ℕ → InheritancePlan → Bool → Bytes → ℕ → Action World Claim
  identify plan_id plan triggered email claim_code = do
    hashed_email ← hash_string x email
    done ← gets (λ s. s.claims (claim_key x plan_id hashed_email))
    raise_if (is_some done) already_claimed
    let first = take max_beneficiaries plan.beneficiaries
    search ← find_beneficiary plan_id hashed_email claim_code 0 first
    found ← or_raise search beneficiary_not_found
    frozen ← gets (λ s. s.frozen_beneficiaries plan_id found.0)
    raise_if frozen unauthorized
    raise_if (plan.waterfall_enabled && must_wait found.1.priority first) claim_not_allowed_yet
    pure (record {
      plan = plan;
      triggered = triggered;
      hashed_email = hashed_email;
      index = found.0;
      beneficiary = found.1;
    })

  -- The claimed part of the plan and of the settlement is written back, and a claim that is final is
  -- recorded. The plan is the one that was read at the start.
  unfoldable pub book_claim : Ledger → ℕ → Claim → ℕ → ℕ → Action World (Unit {0})
  book_claim l plan_id c payout exit_settlement = do
    let plan = c.plan
    let beneficiary = c.beneficiary
    let remaining = exit_settlement - payout
    let final = exit_settlement == 0 || remaining == 0
    store_plan plan_id (record plan {
      beneficiaries =
          set plan.beneficiaries c.index
            (record beneficiary { is_claimed = beneficiary.is_claimed || final });
      total_amount = plan.total_amount - payout;
    })
    modify (λ s. record s {
      exit_settlements =
          update plan_id
            (update c.index
              (if ltb 0 exit_settlement
                then (if remaining == 0 then none else some remaining)
                else s.exit_settlements plan_id c.index)
              (s.exit_settlements plan_id))
            s.exit_settlements;
    })
    if final
        then (do
          modify (λ s. record s {
            claims =
                update_bytes (claim_key x plan_id c.hashed_email)
                  (some (record {
                    plan_id = plan_id;
                    beneficiary_index = c.index;
                    claimed_at = l.timestamp;
                  }))
                  s.claims;
          })
          add_plan_to_claimed c.plan.owner plan_id)
        else pure tt

  unfoldable pub pay_claim : Ledger → ℕ → Address → Claim → Action World (Unit {0})
  pay_claim l plan_id claimer c = do
    exit_settlement ← gets (λ s. or_default 0 (s.exit_settlements plan_id c.index))
    let payout = settled_payout (waterfall_payout c.plan c.beneficiary) exit_settlement
    check_emergency_limit l plan_id c.plan payout
    raise_if (not c.triggered && ltb (c.plan.total_amount - c.plan.total_loaned) payout)
        insufficient_liquidity
    raise_if (payout == 0) nothing_to_claim
    release_from_plan_vault x plan_id c.plan.token claimer payout
    book_claim l plan_id c payout exit_settlement
    access_call (assign_role claimer Role.beneficiary)
    emit (claim_succeeded plan_id c.hashed_email payout)
    if is_empty c.beneficiary.bank_account
        then pure tt
        else emit (fiat_payout_requested plan_id c.index payout)

  unfoldable pub claim_inheritance_plan : Ledger → ℕ → Address → Bytes → ℕ → Action World (Unit {0})
  claim_inheritance_plan l plan_id claimer email claim_code = do
    plan ← admit_claim l plan_id claimer
    triggered ← reach_claim_time l plan_id plan
    c ← identify plan_id plan triggered email claim_code
    pay_claim l plan_id claimer c
    exit_guard
