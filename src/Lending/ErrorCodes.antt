-- ===== src/Lending/ErrorCodes.antt =====
-- contracts/lending-contract/src/lib.rs: the codes that errors travel as, and how they are read back.
use xource_x.Prelude.{ℕ, ◌==◌, if◌then◌else◌, Option, none, some, ◌≡◌, refl, ◌⊎◌, inl, inr}
use xource_x.Lending.Types.{
  LendingError, not_initialized, already_initialized, not_admin, insufficient_liquidity,
  insufficient_shares, no_open_loan, loan_already_exists, invalid_amount, transfer_failed,
  unauthorized, insufficient_collateral, collateral_not_whitelisted, utilization_cap_exceeded,
  reentrant_call, flash_loan_not_repaid, cannot_refinance, invalid_refinance_terms, loan_not_found,
  too_many_loans, invalid_split_amounts, insufficient_stake, no_rewards_to_claim,
  invalid_reward_rate, pool_paused, asset_not_supported, insurance_already_purchased,
  insurance_not_found, insurance_expired, insurance_already_claimed, insufficient_insurance_fund,
  invalid_insurance_amount, invalid_rate_model, contract_paused, plan_yield_not_registered,
  no_yield_accrued, plan_yield_inactive, invalid_yield_boost, too_many_yield_positions,
  flash_loan_defense, reserve_already_exists, reserve_not_found,
}

-- `error as u32`
unfoldable pub error_code : LendingError → ℕ
error_code not_initialized = 1
error_code already_initialized = 2
error_code not_admin = 3
error_code insufficient_liquidity = 4
error_code insufficient_shares = 5
error_code no_open_loan = 6
error_code loan_already_exists = 7
error_code invalid_amount = 8
error_code transfer_failed = 9
error_code unauthorized = 10
error_code insufficient_collateral = 11
error_code collateral_not_whitelisted = 12
error_code utilization_cap_exceeded = 13
error_code reentrant_call = 14
error_code flash_loan_not_repaid = 15
error_code cannot_refinance = 16
error_code invalid_refinance_terms = 17
error_code loan_not_found = 18
error_code too_many_loans = 19
error_code invalid_split_amounts = 20
error_code insufficient_stake = 21
error_code no_rewards_to_claim = 22
error_code invalid_reward_rate = 23
error_code pool_paused = 24
error_code asset_not_supported = 25
error_code insurance_already_purchased = 26
error_code insurance_not_found = 27
error_code insurance_expired = 28
error_code insurance_already_claimed = 29
error_code insufficient_insurance_fund = 30
error_code invalid_insurance_amount = 31
error_code invalid_rate_model = 32
error_code contract_paused = 33
error_code plan_yield_not_registered = 34
error_code no_yield_accrued = 35
error_code plan_yield_inactive = 36
error_code invalid_yield_boost = 37
error_code too_many_yield_positions = 38
error_code flash_loan_defense = 39
error_code reserve_already_exists = 40
error_code reserve_not_found = 41

-- `TryFrom<soroban_sdk::Error>`, from the code of a contract error.
unfoldable pub error_of_code : ℕ → Option LendingError
error_of_code code =
    if code == 1
    then some not_initialized
    else if code == 2
    then some already_initialized
    else if code == 3
    then some not_admin
    else if code == 4
    then some insufficient_liquidity
    else if code == 5
    then some insufficient_shares
    else if code == 6
    then some no_open_loan
    else if code == 7
    then some loan_already_exists
    else if code == 8
    then some invalid_amount
    else if code == 9
    then some transfer_failed
    else if code == 10
    then some unauthorized
    else if code == 11
    then some insufficient_collateral
    else if code == 12
    then some collateral_not_whitelisted
    else if code == 13
    then some utilization_cap_exceeded
    else if code == 14
    then some reentrant_call
    else if code == 15
    then some flash_loan_not_repaid
    else if code == 16
    then some cannot_refinance
    else if code == 17
    then some invalid_refinance_terms
    else if code == 18
    then some loan_not_found
    else if code == 19
    then some too_many_loans
    else if code == 20
    then some invalid_split_amounts
    else if code == 21
    then some insufficient_stake
    else if code == 22
    then some no_rewards_to_claim
    else if code == 23
    then some invalid_reward_rate
    else if code == 24
    then some pool_paused
    else if code == 25
    then some asset_not_supported
    else if code == 26
    then some insurance_already_purchased
    else if code == 27
    then some insurance_not_found
    else if code == 28
    then some insurance_expired
    else if code == 29
    then some insurance_already_claimed
    else if code == 30
    then some insufficient_insurance_fund
    else if code == 31
    then some invalid_insurance_amount
    else if code == 32
    then some invalid_rate_model
    else if code == 33
    then some contract_paused
    else if code == 34
    then some plan_yield_not_registered
    else if code == 35
    then some no_yield_accrued
    else if code == 36
    then some plan_yield_inactive
    else if code == 37
    then some invalid_yield_boost
    else if code == 38
    then some too_many_yield_positions
    else if code == 39
    then some flash_loan_defense
    else none

-- Every error is read back from its code, except for the two errors of the reserves, whose codes are
-- read back as no error of the contract.
error_of_code-error_code :
    (e : LendingError)
    → (error_of_code (error_code e) ≡ some e)
      ⊎ ((error_of_code (error_code e) ≡ none)
          × (e ≡ reserve_already_exists ⊎ e ≡ reserve_not_found))
unfolding error_of_code error_code
error_of_code-error_code not_initialized = inl refl
error_of_code-error_code already_initialized = inl refl
error_of_code-error_code not_admin = inl refl
error_of_code-error_code insufficient_liquidity = inl refl
error_of_code-error_code insufficient_shares = inl refl
error_of_code-error_code no_open_loan = inl refl
error_of_code-error_code loan_already_exists = inl refl
error_of_code-error_code invalid_amount = inl refl
error_of_code-error_code transfer_failed = inl refl
error_of_code-error_code unauthorized = inl refl
error_of_code-error_code insufficient_collateral = inl refl
error_of_code-error_code collateral_not_whitelisted = inl refl
error_of_code-error_code utilization_cap_exceeded = inl refl
error_of_code-error_code reentrant_call = inl refl
error_of_code-error_code flash_loan_not_repaid = inl refl
error_of_code-error_code cannot_refinance = inl refl
error_of_code-error_code invalid_refinance_terms = inl refl
error_of_code-error_code loan_not_found = inl refl
error_of_code-error_code too_many_loans = inl refl
error_of_code-error_code invalid_split_amounts = inl refl
error_of_code-error_code insufficient_stake = inl refl
error_of_code-error_code no_rewards_to_claim = inl refl
error_of_code-error_code invalid_reward_rate = inl refl
error_of_code-error_code pool_paused = inl refl
error_of_code-error_code asset_not_supported = inl refl
error_of_code-error_code insurance_already_purchased = inl refl
error_of_code-error_code insurance_not_found = inl refl
error_of_code-error_code insurance_expired = inl refl
error_of_code-error_code insurance_already_claimed = inl refl
error_of_code-error_code insufficient_insurance_fund = inl refl
error_of_code-error_code invalid_insurance_amount = inl refl
error_of_code-error_code invalid_rate_model = inl refl
error_of_code-error_code contract_paused = inl refl
error_of_code-error_code plan_yield_not_registered = inl refl
error_of_code-error_code no_yield_accrued = inl refl
error_of_code-error_code plan_yield_inactive = inl refl
error_of_code-error_code invalid_yield_boost = inl refl
error_of_code-error_code too_many_yield_positions = inl refl
error_of_code-error_code flash_loan_defense = inl refl
error_of_code-error_code reserve_already_exists = inr (refl, inl refl)
error_of_code-error_code reserve_not_found = inr (refl, inr refl)
