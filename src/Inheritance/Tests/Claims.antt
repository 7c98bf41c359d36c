-- ===== src/Inheritance/Tests/Claims.antt =====
-- Claims of beneficiaries.
use xource_x.Prelude.{ℕ, ◌+◌, ◌-◌, ◌*◌, ◌≤◌, ◌<◌, ◌≡◌, refl, some, [], ◌∷◌, arith}
use xource_x.Prelude.Outcome.{ok, Fails, OnSome}
use xource_x.Prelude.Words.{mul_div_u128}
use xource_x.Prelude.Lists.{length, is_empty, get_elem?, set, pop_back, take, contains}
use xource_x.AccessControl.{holds, assign_role}
use xource_x.Inheritance.Types.{Beneficiary, InheritancePlan}
use xource_x.Inheritance.Store.{
  Store, reject_blacklisted, check_not_paused, enter_guard, exit_guard, check_kyc_approved,
  store_plan, bytes_eq, get_plan, check_not_frozen, add_plan_to_claimed, listed_once,
}
use xource_x.Inheritance.Vaults.{release_from_plan_vault}
use xource_x.Inheritance.Emergency.{
  is_emergency_active, check_and_expire_emergency_access, expire_access,
}
use xource_x.Inheritance.Plans.{check_emergency_limit}
use xource_x.Inheritance.Beneficiaries.{swap_remove, remove_beneficiary}
use xource_x.Inheritance.Beneficiaries.Removal.{remove_beneficiary-Stranded}
use xource_x.Inheritance.Hashing.{
  hash_string, hash_claim_code_with_salt, six_digits, to_be_bytes, claim_key,
  check_and_record_claim_attempt,
}
use xource_x.Inheritance.Triggers.{
  auto_trigger_ignored, auto_trigger_check, check_trigger_conditions,
}
use xource_x.Inheritance.Claims.{
  claim_inheritance_plan, admit_claim, reach_claim_time, is_claim_time_valid, identify,
  find_beneficiary, pay_claim, book_claim, waterfall_payout, entitlement,
}
use xource_x.Inheritance.Claims.Search.{Fits}
use xource_x.Inheritance.Claims.Effects.{PlanClaimed, claim_inheritance_plan-PlanClaimed}
use xource_x.Inheritance.Claims.Payouts.{claim_inheritance_plan-remainder}
use xource_x.Inheritance.Allocations.{allocations}
use xource_x.Inheritance.Steps.{Step, Reach}
use xource_x.Inheritance.Steps.Reachable.{
  PlansAreSound, Reach-PlansAreSound, claim_inheritance_plan-once,
}
use xource_x.Inheritance.Tests.Setup.{host, ledger, plan, second_heir, store, after}

-- User 2 claims for the first heir.
abbrev claimed : Store host.World
unfolding claim_inheritance_plan admit_claim reach_claim_time is_claim_time_valid identify
    find_beneficiary pay_claim book_claim waterfall_payout entitlement reject_blacklisted
    check_not_paused enter_guard exit_guard check_kyc_approved store_plan bytes_eq get_plan
    check_not_frozen release_from_plan_vault add_plan_to_claimed listed_once is_emergency_active
    check_and_expire_emergency_access expire_access check_emergency_limit hash_string
    hash_claim_code_with_salt six_digits to_be_bytes claim_key check_and_record_claim_attempt
    auto_trigger_ignored auto_trigger_check check_trigger_conditions length is_empty get_elem? set
    take contains holds assign_role mul_div_u128
claimed = after store (claim_inheritance_plan host ledger 1 2 (65 ∷ []) 123_456 store)

claimed_ok : claim_inheritance_plan host ledger 1 2 (65 ∷ []) 123_456 store ≡ ok (tt, claimed)
unfolding claim_inheritance_plan admit_claim reach_claim_time is_claim_time_valid identify
    find_beneficiary pay_claim book_claim waterfall_payout entitlement reject_blacklisted
    check_not_paused enter_guard exit_guard check_kyc_approved store_plan bytes_eq get_plan
    check_not_frozen release_from_plan_vault add_plan_to_claimed listed_once is_emergency_active
    check_and_expire_emergency_access expire_access check_emergency_limit hash_string
    hash_claim_code_with_salt six_digits to_be_bytes claim_key check_and_record_claim_attempt
    auto_trigger_ignored auto_trigger_check check_trigger_conditions length is_empty get_elem? set
    take contains holds assign_role mul_div_u128
claimed_ok = refl

-- The first heir's 60% are paid out of 9800.
claimed_total : OnSome (λ p. p.total_amount ≡ 3920) (claimed.plans 1)
unfolding claim_inheritance_plan admit_claim reach_claim_time is_claim_time_valid identify
    find_beneficiary pay_claim book_claim waterfall_payout entitlement reject_blacklisted
    check_not_paused enter_guard exit_guard check_kyc_approved store_plan bytes_eq get_plan
    check_not_frozen release_from_plan_vault add_plan_to_claimed listed_once is_emergency_active
    check_and_expire_emergency_access expire_access check_emergency_limit hash_string
    hash_claim_code_with_salt six_digits to_be_bytes claim_key check_and_record_claim_attempt
    auto_trigger_ignored auto_trigger_check check_trigger_conditions length is_empty get_elem? set
    take contains holds assign_role mul_div_u128
claimed_total = refl

-- The second heir's 40% are then 40% of the rest.
claimed_twice :
    OnSome
      (λ p. p.total_amount ≡ 2352)
      ((after claimed (claim_inheritance_plan host ledger 1 3 (66 ∷ []) 654_321 claimed)).plans 1)
unfolding claim_inheritance_plan admit_claim reach_claim_time is_claim_time_valid identify
    find_beneficiary pay_claim book_claim waterfall_payout entitlement reject_blacklisted
    check_not_paused enter_guard exit_guard check_kyc_approved store_plan bytes_eq get_plan
    check_not_frozen release_from_plan_vault add_plan_to_claimed listed_once is_emergency_active
    check_and_expire_emergency_access expire_access check_emergency_limit hash_string
    hash_claim_code_with_salt six_digits to_be_bytes claim_key check_and_record_claim_attempt
    auto_trigger_ignored auto_trigger_check check_trigger_conditions length is_empty get_elem? set
    take contains holds assign_role mul_div_u128
claimed_twice = refl

claim_inheritance_plan-PlanClaimed_example :
    PlanClaimed host ledger 1 2 (65 ∷ []) 123_456 store claimed
claim_inheritance_plan-PlanClaimed_example =
    claim_inheritance_plan-PlanClaimed host ledger 1 2 (65 ∷ []) 123_456 store claimed claimed_ok

claim_inheritance_plan-remainder_example :
    (p : InheritancePlan) × (index : ℕ) × (b : Beneficiary) × (payout : ℕ) × (vault : ℕ)
    × (store.plans 1 ≡ some p)
    × (get_elem? p.beneficiaries index ≡ some b)
    × Fits host store 1 (65 ∷ []) 123_456 index b
    × (store.plan_vaults 1 ≡ some vault)
    × (host.release vault p.token 2 payout store.world ≡ some claimed.world)
    × (payout * 10_000 ≤ p.total_amount * b.allocation_bp)
    × (0 < payout)
    × OnSome
        (λ q.
          (q.total_amount + payout ≡ p.total_amount)
          × (p.total_amount * (10_000 - b.allocation_bp) ≤ q.total_amount * 10_000))
        (claimed.plans 1)
claim_inheritance_plan-remainder_example =
    claim_inheritance_plan-remainder host ledger 1 2 (65 ∷ []) 123_456 store claimed claimed_ok

claim_inheritance_plan-once_example :
    Fails (claim_inheritance_plan host ledger 1 3 (65 ∷ []) 1 (record claimed { world = 8 }))
claim_inheritance_plan-once_example =
    claim_inheritance_plan-once host ledger ledger 1 2 3 (65 ∷ []) 123_456 1 store claimed
      (record claimed { world = 8 }) (λ i. refl) claimed_ok
      (Reach.next Reach.here (Step.others 8 claimed))

pub store-IsSound : PlansAreSound store
unfolding allocations length
store-IsSound = record { plans = λ i p h. ground arith; fresh = λ i h. ground arith }

Reach-PlansAreSound_example : PlansAreSound claimed
Reach-PlansAreSound_example =
    Reach-PlansAreSound host store-IsSound
      (Reach.next Reach.here (Step.claimed ledger 1 2 (65 ∷ []) 123_456 claimed_ok))

abbrev removed : Store host.World
unfolding remove_beneficiary swap_remove get_elem? set pop_back length
removed = after store (remove_beneficiary ledger 1 1 0 store)

remove_beneficiary-Stranded_example :
    OnSome (λ q. get_elem? q.beneficiaries 0 ≡ some second_heir) (removed.plans 1)
    × (¬ Fits host removed 1 (66 ∷ []) 654_321 0 second_heir)
unfolding remove_beneficiary swap_remove get_elem? set pop_back length six_digits
remove_beneficiary-Stranded_example =
    remove_beneficiary-Stranded host ledger 1 1 0 plan second_heir (0 ∷ []) (1 ∷ []) 654_321
      (66 ∷ []) 654_321 store removed (λ a b h. h) refl (omega arith) refl refl refl refl
      (λ h. ground arith) refl
