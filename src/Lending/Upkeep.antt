-- ===== src/Lending/Upkeep.antt =====
-- contracts/lending-contract/src/lib.rs: the entry points that move neither shares nor deposits nor
-- loans: farming, reserves, insurance and plan yield, as one set of calls.
pub mod Books
use xource_x.Prelude.{ℕ, List}
use xource_x.Prelude.Outcome.{◌>>◌, pure}
use xource_x.AccessControl.{Address}
use xource_x.Lending.Store.{External, Ledger, Action}
use xource_x.Lending.Rewards.{
  calculate_pending_rewards, stake_lp_tokens, unstake_lp_tokens, claim_rewards, set_reward_rate,
}
use xource_x.Lending.ReserveFund.{
  set_reserve_factor, accrue_interest_with_reserve, pay_from_reserve, replenish_bad_debt_reserve,
}
use xource_x.Lending.Insurance.{
  get_insurance_premium, set_insurance_premium_rate, purchase_loan_insurance, claim_insurance,
  cancel_insurance, deposit_to_insurance_fund, withdraw_from_insurance_fund,
}
use xource_x.Lending.PlanYield.{
  set_inheritance_contract, set_governance_contract, register_plan_yield, claim_plan_yield,
  claim_plan_yield_batch, unregister_plan_yield, set_plan_yield_boost, fund_retained_yield,
}

pub data Upkeep : Type 0 where
  stake unstake : (user asset : Address) → (amount : ℕ) → Upkeep
  take_rewards : (user asset : Address) → Upkeep
  reward_rate reserve_factor : (admin asset : Address) → ℕ → Upkeep
  reserve_interest : (loan_id : ℕ) → Upkeep
  pay_reserve : (admin asset : Address) → (amount : ℕ) → (receiver : Address) → Upkeep
  replenish : (admin asset : Address) → (amount : ℕ) → Upkeep
  premium_rate fund_deposit fund_withdrawal : (admin : Address) → ℕ → Upkeep
  insure uninsure : (borrower : Address) → (loan_id : ℕ) → Upkeep
  claim_cover : (loan_id : ℕ) → Upkeep
  link_inheritance link_governance : (admin linked : Address) → Upkeep
  register : (caller : Address) → (plan_id : ℕ) → (asset : Address) → (principal : ℕ) → Upkeep
  quote_rewards : (user asset : Address) → Upkeep
  quote_premium : (loan_amount : ℕ) → Upkeep
  harvest unregister : (caller : Address) → (plan_id : ℕ) → Upkeep
  harvest_all : (caller : Address) → (plan_ids : List ℕ) → Upkeep
  boost : (admin : Address) → (plan_id boost_bps : ℕ) → Upkeep
  fund_yield : (funder asset : Address) → (amount : ℕ) → Upkeep

unfoldable pub apply_upkeep : (x : External) → Ledger → Upkeep → Action x.World (Unit {0})
apply_upkeep x l (Upkeep.stake user asset amount) = stake_lp_tokens l user asset amount
apply_upkeep x l (Upkeep.unstake user asset amount) = unstake_lp_tokens l user asset amount
apply_upkeep x l (Upkeep.take_rewards user asset) = claim_rewards l user asset >> pure tt
apply_upkeep x l (Upkeep.reward_rate admin asset rate) = set_reward_rate l admin asset rate
apply_upkeep x l (Upkeep.reserve_factor admin asset factor) =
    set_reserve_factor l admin asset factor
apply_upkeep x l (Upkeep.reserve_interest loan_id) = accrue_interest_with_reserve l loan_id
apply_upkeep x l (Upkeep.pay_reserve admin asset amount receiver) =
    pay_from_reserve x l admin asset amount receiver
apply_upkeep x l (Upkeep.replenish admin asset amount) =
    replenish_bad_debt_reserve x l admin asset amount >> pure tt
apply_upkeep x l (Upkeep.premium_rate admin rate) = set_insurance_premium_rate l admin rate
apply_upkeep x l (Upkeep.fund_deposit admin amount) = deposit_to_insurance_fund x l admin amount
apply_upkeep x l (Upkeep.fund_withdrawal admin amount) =
    withdraw_from_insurance_fund x l admin amount
apply_upkeep x l (Upkeep.insure borrower loan_id) =
    purchase_loan_insurance x l borrower loan_id >> pure tt
apply_upkeep x l (Upkeep.uninsure borrower loan_id) =
    cancel_insurance x l borrower loan_id >> pure tt
apply_upkeep x l (Upkeep.claim_cover loan_id) = claim_insurance l loan_id >> pure tt
apply_upkeep x l (Upkeep.link_inheritance admin linked) = set_inheritance_contract l admin linked
apply_upkeep x l (Upkeep.link_governance admin linked) = set_governance_contract l admin linked
apply_upkeep x l (Upkeep.register caller plan_id asset principal) =
    register_plan_yield l caller plan_id asset principal
apply_upkeep x l (Upkeep.quote_rewards user asset) =
    calculate_pending_rewards l user asset >> pure tt
apply_upkeep x l (Upkeep.quote_premium loan_amount) = get_insurance_premium loan_amount >> pure tt
apply_upkeep x l (Upkeep.harvest caller plan_id) = claim_plan_yield l caller plan_id >> pure tt
apply_upkeep x l (Upkeep.harvest_all caller plan_ids) =
    claim_plan_yield_batch l caller plan_ids >> pure tt
apply_upkeep x l (Upkeep.unregister caller plan_id) = unregister_plan_yield l caller plan_id
apply_upkeep x l (Upkeep.boost admin plan_id boost_bps) =
    set_plan_yield_boost l admin plan_id boost_bps
apply_upkeep x l (Upkeep.fund_yield funder asset amount) =
    fund_retained_yield x l funder asset amount >> pure tt
