-- ===== src/Lending/Upkeep/Books.antt =====
-- contracts/lending-contract/src: what the calls of `Upkeep` leave as it was.
use xource_x.Prelude.{ℕ, ◌≡◌, subst, ◌∙◌, inl, inr, List, [], ◌∷◌, arith}
use xource_x.Prelude.Outcome.{ok, Outcome-cases, >>=-eq-ok, ◌>>=◌, pure}
use xource_x.AccessControl.{Address}
use xource_x.Lending.Pool.Totals.{SameTotals}
use xource_x.Lending.Store.{
  External, Ledger, Store, require_initialized, require_admin, ensure_not_paused, get_pool,
  set_pool, get_shares, transfer, grace_period_end,
}
use xource_x.Lending.PlanYield.Claims.{
  claim_plan_yield_inner-YieldClaimed, check_plan_yield_caller_pure,
}
use xource_x.Lending.Rewards.{
  update_reward_pool, calculate_pending_rewards, update_user_reward_debt, stake_lp_tokens,
  unstake_lp_tokens, claim_rewards, set_reward_rate,
}
use xource_x.Lending.ReserveFund.{
  require_stored_admin, set_reserve_factor, accrue_interest_with_reserve, pay_from_reserve,
  replenish_bad_debt_reserve,
}
use xource_x.Lending.Insurance.{
  init_insurance_fund_if_needed, premium_at, get_insurance_premium, set_insurance_premium_rate,
  purchase_loan_insurance, claim_insurance, pay_out, cancel_insurance, deposit_to_insurance_fund,
  withdraw_from_insurance_fund,
}
use xource_x.Lending.PlanYield.{
  set_inheritance_contract, set_governance_contract, register_plan_yield, claim_plan_yield_inner,
  claim_plan_yield, or_zero, claim_each, claim_plan_yield_batch, unregister_plan_yield,
  set_plan_yield_boost, fund_retained_yield, require_plan_yield_caller, get_position, set_position,
  index_plan_yield,
}
use xource_x.Lending.Upkeep.{Upkeep, apply_upkeep}

pub record KeepsTotals {W : Type 0} (s t : Store W) : Type 0 where
  pub pools : (a : Address) → SameTotals (s.pools a) (t.pools a)
  pub shares : t.shares ≡ s.shares
  pub loans : t.loans ≡ s.loans
  pub loans_by_id : t.loans_by_id ≡ s.loans_by_id
  pub supported_assets : t.supported_assets ≡ s.supported_assets
  pub admin : t.admin ≡ s.admin
  pub access : t.access ≡ s.access

module _ {W : Type 0} (l : Ledger) (caller : Address) where
  claim_plan_yield_inner-KeepsTotals :
      (plan_id paid : ℕ) (s t : Store W)
      → claim_plan_yield_inner l caller plan_id s ≡ ok (paid, t)
      → KeepsTotals s t
  claim_plan_yield_inner-KeepsTotals plan_id paid s t h =
      let (position, pool, claimed) =
        claim_plan_yield_inner-YieldClaimed l s t caller plan_id paid h in
      ground arith

  or_zero-KeepsTotals :
      (plan_id paid : ℕ) (s t : Store W)
      → or_zero (claim_plan_yield_inner l caller plan_id) s ≡ ok (paid, t)
      → KeepsTotals s t
  unfolding or_zero
  or_zero-KeepsTotals plan_id paid s t h =
      elim (Outcome-cases (claim_plan_yield_inner l caller plan_id s)) [
        | inl ((again, u), claims) ↦
            claim_plan_yield_inner-KeepsTotals plan_id paid s t (ground arith)
        | inr fails ↦ ground arith
      ]

KeepsTotals-trans :
    {W : Type 0} {s t u : Store W} → KeepsTotals s t → KeepsTotals t u → KeepsTotals s u
KeepsTotals-trans p q = record {
  pools = λ a. ground (arith, p.pools a, q.pools a);
  shares = q.shares ∙ p.shares;
  loans = q.loans ∙ p.loans;
  loans_by_id = q.loans_by_id ∙ p.loans_by_id;
  supported_assets = q.supported_assets ∙ p.supported_assets;
  admin = q.admin ∙ p.admin;
  access = q.access ∙ p.access;
}

module _ {W : Type 0} (l : Ledger) (caller : Address) where
  claim_each-KeepsTotals :
      (plan_ids results : List ℕ) (s t : Store W)
      → claim_each l caller plan_ids s ≡ ok (results, t)
      → KeepsTotals s t
  unfolding claim_each
  claim_each-KeepsTotals [] results s t h = ground arith
  claim_each-KeepsTotals (plan_id ∷ rest) results s t h =
      let (paid, u, first, more) =
        >>=-eq-ok (or_zero (claim_plan_yield_inner l caller plan_id))
          (λ paid. claim_each l caller rest >>= λ results. pure (paid ∷ results)) s h in
      let (others, v, later, last) =
        >>=-eq-ok (claim_each l caller rest) (λ results. pure (paid ∷ results)) u more in
      KeepsTotals-trans (or_zero-KeepsTotals l caller plan_id paid s u first)
        (subst (KeepsTotals u) (ground arith) (claim_each-KeepsTotals rest others u v later))

module _ (x : External) (l : Ledger) (s t : Store x.World) where
  -- Farming, reserves, insurance and plan yield change neither a share nor a loan, nor what any pool
  -- has in deposits, shares, borrowings or cap, nor the rights, the lock and the list of assets.
  pub apply_upkeep-KeepsTotals : (c : Upkeep) → apply_upkeep x l c s ≡ ok (tt, t) → KeepsTotals s t
  unfolding apply_upkeep claim_plan_yield claim_plan_yield_batch stake_lp_tokens update_reward_pool
      require_initialized get_shares unstake_lp_tokens update_user_reward_debt
      calculate_pending_rewards claim_rewards set_reward_rate require_admin set_reserve_factor
      require_stored_admin get_pool set_pool accrue_interest_with_reserve pay_from_reserve transfer
      replenish_bad_debt_reserve ensure_not_paused set_insurance_premium_rate
      init_insurance_fund_if_needed deposit_to_insurance_fund withdraw_from_insurance_fund pay_out
      purchase_loan_insurance premium_at grace_period_end cancel_insurance claim_insurance
      set_inheritance_contract set_governance_contract register_plan_yield require_plan_yield_caller
      index_plan_yield set_position get_insurance_premium unregister_plan_yield get_position
      set_plan_yield_boost fund_retained_yield
  apply_upkeep-KeepsTotals (Upkeep.stake user asset amount) h = ground arith
  apply_upkeep-KeepsTotals (Upkeep.unstake user asset amount) h = ground arith
  apply_upkeep-KeepsTotals (Upkeep.take_rewards user asset) h = ground arith
  apply_upkeep-KeepsTotals (Upkeep.reward_rate admin asset rate) h = ground arith
  apply_upkeep-KeepsTotals (Upkeep.reserve_factor admin asset factor) h = ground arith
  apply_upkeep-KeepsTotals (Upkeep.reserve_interest loan_id) h = ground arith
  apply_upkeep-KeepsTotals (Upkeep.pay_reserve admin asset amount receiver) h = ground arith
  apply_upkeep-KeepsTotals (Upkeep.replenish admin asset amount) h = ground arith
  apply_upkeep-KeepsTotals (Upkeep.premium_rate admin rate) h = ground arith
  apply_upkeep-KeepsTotals (Upkeep.fund_deposit admin amount) h = ground arith
  apply_upkeep-KeepsTotals (Upkeep.fund_withdrawal admin amount) h = ground arith
  apply_upkeep-KeepsTotals (Upkeep.insure borrower loan_id) h = ground arith
  apply_upkeep-KeepsTotals (Upkeep.uninsure borrower loan_id) h = ground arith
  apply_upkeep-KeepsTotals (Upkeep.claim_cover loan_id) h = ground arith
  apply_upkeep-KeepsTotals (Upkeep.link_inheritance admin linked) h = ground arith
  apply_upkeep-KeepsTotals (Upkeep.link_governance admin linked) h = ground arith
  apply_upkeep-KeepsTotals (Upkeep.register caller plan_id asset principal) h =
      ground (arith, check_plan_yield_caller_pure l s caller)
  apply_upkeep-KeepsTotals (Upkeep.quote_rewards user asset) h = ground arith
  apply_upkeep-KeepsTotals (Upkeep.quote_premium loan_amount) h = ground arith
  apply_upkeep-KeepsTotals (Upkeep.unregister caller plan_id) h =
      ground (arith, check_plan_yield_caller_pure l s caller)
  apply_upkeep-KeepsTotals (Upkeep.boost admin plan_id boost_bps) h = ground arith
  apply_upkeep-KeepsTotals (Upkeep.fund_yield funder asset amount) h =
      ground (arith, check_plan_yield_caller_pure l s funder)
  apply_upkeep-KeepsTotals (Upkeep.harvest caller plan_id) h =
      elim (Outcome-cases (claim_plan_yield_inner l caller plan_id s)) [
        | inr fails ↦ absurd (ground arith)
        | inl ((paid, u), claims) ↦
            claim_plan_yield_inner-KeepsTotals l caller plan_id paid s t (ground arith)
      ]
  apply_upkeep-KeepsTotals (Upkeep.harvest_all caller plan_ids) h =
      elim (Outcome-cases (claim_each l caller plan_ids s)) [
        | inr fails ↦ absurd (ground arith)
        | inl ((results, u), claims) ↦
            claim_each-KeepsTotals l caller plan_ids results s t (ground arith)
      ]
