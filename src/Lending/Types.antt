-- ===== src/Lending/Types.antt =====
-- contracts/lending-contract/src/lib.rs and reserves.rs: the stored records, the errors and the
-- published events. A u64 or u32 field is a natural; the operations keep its range.
use xource_x.Prelude.{ℕ, Bool, List}
use xource_x.AccessControl.{Address}

pub data LendingError : Type 0 where
  not_initialized already_initialized not_admin insufficient_liquidity : LendingError
  insufficient_shares no_open_loan loan_already_exists invalid_amount : LendingError
  transfer_failed unauthorized insufficient_collateral collateral_not_whitelisted : LendingError
  utilization_cap_exceeded reentrant_call flash_loan_not_repaid cannot_refinance : LendingError
  invalid_refinance_terms loan_not_found too_many_loans invalid_split_amounts : LendingError
  insufficient_stake no_rewards_to_claim invalid_reward_rate pool_paused : LendingError
  asset_not_supported insurance_already_purchased insurance_not_found : LendingError
  insurance_expired insurance_already_claimed insufficient_insurance_fund : LendingError
  invalid_insurance_amount invalid_rate_model contract_paused : LendingError
  plan_yield_not_registered no_yield_accrued plan_yield_inactive : LendingError
  invalid_yield_boost too_many_yield_positions flash_loan_defense : LendingError
  reserve_already_exists reserve_not_found : LendingError

pub record PoolState : Type 0 where
  pub total_deposits : ℕ
  pub total_shares : ℕ
  pub total_borrowed : ℕ
  pub base_rate_bps : ℕ
  pub multiplier_bps : ℕ
  pub utilization_cap_bps : ℕ
  pub retained_yield : ℕ
  pub bad_debt_reserve : ℕ
  pub grace_period_seconds : ℕ
  pub late_fee_rate_bps : ℕ
  pub reserve_factor_bps : ℕ
  pub total_protocol_revenue : ℕ
  pub is_paused : Bool

pub record LoanRecord : Type 0 where
  pub loan_id : ℕ
  pub borrower : Address
  pub asset : Address
  pub principal : ℕ
  pub collateral_amount : ℕ
  pub collateral_token : Address
  pub borrow_time : ℕ
  pub due_date : ℕ
  pub interest_rate_bps : ℕ

pub record RateModel : Type 0 where
  pub base_rate_bps : ℕ
  pub optimal_utilization_bps : ℕ
  pub slope1_bps : ℕ
  pub slope2_bps : ℕ
  pub reserve_factor_bps : ℕ

pub record ReserveConfig : Type 0 where
  pub token : Address
  pub ltv_bps : ℕ
  pub liquidation_threshold_bps : ℕ
  pub total_borrowed : ℕ
  pub total_collateral : ℕ
  pub enabled : Bool

pub record RewardPool : Type 0 where
  pub total_staked : ℕ
  pub reward_rate : ℕ
  pub last_update_time : ℕ
  pub reward_per_token_stored : ℕ
  pub total_rewards_distributed : ℕ

pub record InsuranceFund : Type 0 where
  pub total_premiums_collected : ℕ
  pub total_claims_paid : ℕ
  pub available_balance : ℕ

pub record UserStake : Type 0 where
  pub amount : ℕ
  pub reward_per_token_paid : ℕ
  pub rewards : ℕ
  pub stake_time : ℕ

pub record LoanInsurance : Type 0 where
  pub loan_id : ℕ
  pub borrower : Address
  pub coverage_amount : ℕ
  pub premium_paid : ℕ
  pub premium_rate_bps : ℕ
  pub purchase_time : ℕ
  pub expires_at : ℕ
  pub claimed : Bool

pub record PlanYieldPosition : Type 0 where
  pub plan_id : ℕ
  pub asset : Address
  pub principal : ℕ
  pub last_harvest_at : ℕ
  pub total_harvested : ℕ
  pub last_harvest_amount : ℕ
  pub harvest_count : ℕ
  pub registered_at : ℕ
  pub boost_bps : ℕ
  pub active : Bool

-- What `env.events().publish` is given, one constructor to an event struct, its fields in order.
pub data Event : Type 0 where
  deposited : (depositor asset : Address) (amount shares_minted : ℕ) → Event
  withdrawn : (depositor asset : Address) (shares_burned amount : ℕ) → Event
  priority_withdrawn : (caller asset : Address) (amount : ℕ) → Event
  borrowed :
      (loan_id : ℕ) (borrower asset : Address) (amount collateral_amount due_date : ℕ) → Event
  collateral_deposited : (loan_id : ℕ) (borrower collateral_token : Address) (amount : ℕ) → Event
  repaid :
      (loan_id : ℕ) (borrower asset : Address)
      (principal interest total_amount collateral_returned : ℕ)
      → Event
  late_fee_charged :
      (loan_id : ℕ) (borrower asset : Address)
      (late_fee days_overdue total_with_late_fees timestamp : ℕ)
      → Event
  interest_accrued :
      (loan_id : ℕ) (borrower asset : Address)
      (principal interest_accrued interest_rate_bps elapsed_seconds timestamp : ℕ)
      → Event
  liquidated :
      (loan_id : ℕ) (borrower liquidator asset : Address)
      (amount_repaid collateral_seized health_factor : ℕ)
      → Event
  flash_loaned : (receiver asset : Address) (amount fee : ℕ) → Event
  reserve_added : (token : Address) (ltv_bps liquidation_threshold_bps : ℕ) → Event
  rate_model_updated : RateModel → (updated_by : Address) (timestamp : ℕ) → Event
  bad_debt_liquidated :
      (loan_id : ℕ) (borrower asset : Address)
      (outstanding_balance collateral_seized shortfall_covered : ℕ)
      → Event
  bad_debt_reserve_replenished : (asset : Address) (amount new_reserve_balance : ℕ) → Event
  loan_refinanced :
      (old_loan_id new_loan_id : ℕ) (borrower asset : Address)
      (old_principal new_principal refinancing_fee : ℕ)
      (old_interest_rate_bps new_interest_rate_bps old_due_date new_due_date timestamp : ℕ)
      → Event
  loans_consolidated :
      (old_loan_ids : List ℕ) (new_loan_id : ℕ) (borrower asset : Address)
      (total_old_principal new_principal consolidation_fee new_due_date timestamp : ℕ)
      → Event
  loan_split :
      (old_loan_id : ℕ) (new_loan_ids : List ℕ) (borrower asset : Address) (old_principal : ℕ)
      (new_principals : List ℕ) (split_fee timestamp : ℕ)
      → Event
  staked : (user asset : Address) (amount timestamp : ℕ) → Event
  unstaked : (user asset : Address) (amount rewards_claimed timestamp : ℕ) → Event
  rewards_claimed : (user asset : Address) (rewards timestamp : ℕ) → Event
  plan_yield_registered : (plan_id : ℕ) (asset : Address) (principal timestamp : ℕ) → Event
  plan_yield_unregistered : (plan_id : ℕ) (asset : Address) (total_harvested timestamp : ℕ) → Event
  plan_yield_boost_set : (plan_id old_boost_bps new_boost_bps : ℕ) → Event
  retained_yield_funded : (asset funder : Address) (amount new_balance : ℕ) → Event
  plan_yield_claimed :
      (plan_id : ℕ) (asset : Address) (yield_amount total_harvested timestamp : ℕ) → Event
  reward_rate_updated : (asset : Address) (old_rate new_rate timestamp : ℕ) → Event
  insurance_purchased :
      (loan_id : ℕ) (borrower : Address)
      (coverage_amount premium_paid premium_rate_bps expires_at timestamp : ℕ)
      → Event
  insurance_claimed :
      (loan_id : ℕ) (borrower : Address) (claim_amount coverage_amount timestamp : ℕ) → Event
  insurance_cancelled : (loan_id : ℕ) (borrower : Address) (refund_amount timestamp : ℕ) → Event
  inheritance_linked governance_linked : (contract : Address) → Event
