-- ===== src/Lending/Insurance.antt =====
-- contracts/lending-contract/src/lib.rs: loan insurance: premiums, purchase, claim and cancellation,
-- and what the admin moves in and out of the insurance fund.
pub mod Covers
use xource_x.Prelude.{
  ℕ, ◌-◌, ◌/◌, Bool, true, false, not, ◌||◌, Option, none, some, is_some, ltb, leb, ◌==◌,
  if◌then◌else◌,
}
use xource_x.Prelude.Words.{as_u64, checked_mul_u128, mul_div_u128, saturating_add_u64}
use xource_x.Prelude.Outcome.{Contract, ◌>>=◌, ◌>>◌, pure, gets, modify, raise_if, or_raise, unwrap}
use xource_x.Prelude.Dict.{update, or_default}
use xource_x.AccessControl.{Address}
use xource_x.Lending.Types.{
  LendingError, InsuranceFund, LoanInsurance, invalid_amount, loan_not_found, unauthorized,
  insurance_already_purchased, insurance_not_found, insurance_already_claimed,
  insufficient_insurance_fund, insufficient_liquidity, invalid_insurance_amount,
  insurance_purchased, insurance_claimed, insurance_cancelled,
}
use xource_x.Lending.Store.{
  External, Ledger, Store, Action, emit, require_auth, require_admin, transfer, invoke,
  grace_period_end,
}

abbrev pub default_insurance_premium_rate_bps : ℕ
default_insurance_premium_rate_bps = 200

-- The fund that is stored where none is.
abbrev pub no_fund : InsuranceFund
no_fund = record { total_premiums_collected = 0; total_claims_paid = 0; available_balance = 0 }

-- The premium of a sum at a rate.
unfoldable pub premium_at : {W : Type 0} → ℕ → ℕ → Action W ℕ
premium_at amount premium_rate_bps = do
  scaled ← or_raise (checked_mul_u128 amount premium_rate_bps) invalid_amount
  pure (as_u64 (scaled / 10000))

-- What a cancellation pays back: the premium, in proportion to the time that is left.
unfoldable pub refund_of : ℕ → LoanInsurance → ℕ
refund_of now insurance =
    if ltb now insurance.expires_at
    then (let total_duration = insurance.expires_at - insurance.purchase_time in
        let elapsed = now - insurance.purchase_time in
        as_u64 (mul_div_u128 insurance.premium_paid (total_duration - elapsed) total_duration))
    else 0

-- The insurance is neither claimed nor expired.
unfoldable pub is_active : ℕ → LoanInsurance → Bool
is_active now insurance = if insurance.claimed then false else ltb now insurance.expires_at

module _ {W : Type 0} where
  unfoldable pub init_insurance_fund_if_needed : Action W (Unit {0})
  init_insurance_fund_if_needed = modify (λ s. record s {
    insurance_fund = some (or_default no_fund s.insurance_fund);
    insurance_premium_rate =
        some (or_default default_insurance_premium_rate_bps s.insurance_premium_rate);
  })

  -- `get(…).unwrap_or(…)` of the fund, and `set`
  abbrev pub change_fund : (InsuranceFund → InsuranceFund) → Action W (Unit {0})
  change_fund f =
      modify (λ s. record s { insurance_fund = some (f (or_default no_fund s.insurance_fund)) })

  unfoldable pub get_insurance_premium : ℕ → Action W ℕ
  unfolding init_insurance_fund_if_needed premium_at
  get_insurance_premium loan_amount = do
    init_insurance_fund_if_needed
    rate ← gets (λ s. or_default default_insurance_premium_rate_bps s.insurance_premium_rate)
    premium_at loan_amount rate

  unfoldable pub set_insurance_premium_rate : Ledger → Address → ℕ → Action W (Unit {0})
  unfolding require_admin init_insurance_fund_if_needed
  set_insurance_premium_rate l admin premium_rate_bps = do
    require_admin l admin
    raise_if (ltb 10000 premium_rate_bps) invalid_amount
    init_insurance_fund_if_needed
    modify (λ s. record s { insurance_premium_rate = some premium_rate_bps })

  unfoldable pub is_loan_insured : Ledger → ℕ → Action W Bool
  unfolding is_active
  is_loan_insured l loan_id = do
    found ← gets (λ s. s.insurance loan_id)
    pure (elim found [ some insurance ↦ is_active l.timestamp insurance | none ↦ false ])

  unfoldable pub get_insurance_coverage : Ledger → ℕ → Action W ℕ
  unfolding is_active
  get_insurance_coverage l loan_id = do
    found ← gets (λ s. s.insurance loan_id)
    pure (elim found [
      | some insurance ↦ if is_active l.timestamp insurance then insurance.coverage_amount else 0
      | none ↦ 0
    ])

  -- Anyone may call this; no token moves.
  unfoldable pub claim_insurance : Ledger → ℕ → Action W ℕ
  unfolding grace_period_end
  claim_insurance l loan_id = do
    held ← gets (λ s. s.insurance loan_id)
    insurance ← or_raise held insurance_not_found
    raise_if insurance.claimed insurance_already_claimed
    found ← gets (λ s. s.loans_by_id loan_id)
    loan ← or_raise found loan_not_found
    grace_end ← grace_period_end loan
    raise_if (leb l.timestamp grace_end) invalid_amount
    stored ← gets (λ s. s.insurance_fund)
    fund ← or_raise stored insurance_not_found
    let claim_amount = insurance.coverage_amount
    raise_if (ltb fund.available_balance claim_amount) insufficient_insurance_fund
    modify (λ s. record s {
      insurance = update loan_id (some (record insurance { claimed = true })) s.insurance;
      insurance_fund = some (record fund {
        total_claims_paid = saturating_add_u64 fund.total_claims_paid claim_amount;
        available_balance = fund.available_balance - claim_amount;
      });
    })
    emit (insurance_claimed loan_id insurance.borrower claim_amount claim_amount l.timestamp)
    pure claim_amount

module _ (x : External) where
  open x use {World}

  unfoldable pub purchase_loan_insurance : Ledger → Address → ℕ → Action World ℕ
  unfolding init_insurance_fund_if_needed premium_at transfer grace_period_end
  purchase_loan_insurance l borrower loan_id = do
    require_auth l borrower
    init_insurance_fund_if_needed
    found ← gets (λ s. s.loans_by_id loan_id)
    loan ← or_raise found loan_not_found
    raise_if (not (loan.borrower == borrower)) unauthorized
    held ← gets (λ s. s.insurance loan_id)
    raise_if (is_some held) insurance_already_purchased
    rate ← gets (λ s. or_default default_insurance_premium_rate_bps s.insurance_premium_rate)
    premium ← premium_at loan.principal rate
    raise_if (premium == 0) invalid_insurance_amount
    stored ← gets (λ s. s.token)
    token ← unwrap stored
    transfer x token borrower l.contract_id premium
    expires_at ← grace_period_end loan
    modify (λ s. record s {
      insurance =
          update loan_id
            (some (record {
              loan_id = loan_id;
              borrower = borrower;
              coverage_amount = loan.principal;
              premium_paid = premium;
              premium_rate_bps = rate;
              purchase_time = l.timestamp;
              expires_at = expires_at;
              claimed = false;
            }))
            s.insurance;
    })
    change_fund λ fund. record fund {
      total_premiums_collected = saturating_add_u64 fund.total_premiums_collected premium;
      available_balance = saturating_add_u64 fund.available_balance premium;
    }
    emit (insurance_purchased loan_id borrower loan.principal premium rate expires_at l.timestamp)
    pure premium

  -- `token::Client::transfer` of the stored token, from the contract
  unfoldable pub pay_out : Ledger → Address → ℕ → Action World (Unit {0})
  unfolding transfer
  pay_out l receiver amount = do
    stored ← gets (λ s. s.token)
    token ← unwrap stored
    invoke x (x.transfer token l.contract_id receiver amount)

  unfoldable pub cancel_insurance : Ledger → Address → ℕ → Action World ℕ
  unfolding refund_of pay_out
  cancel_insurance l borrower loan_id = do
    require_auth l borrower
    held ← gets (λ s. s.insurance loan_id)
    insurance ← or_raise held insurance_not_found
    raise_if (not (insurance.borrower == borrower)) unauthorized
    raise_if insurance.claimed insurance_already_claimed
    let refund_amount = refund_of l.timestamp insurance
    modify (λ s. record s { insurance = update loan_id none s.insurance })
    if ltb 0 refund_amount
        then (change_fund
              (λ fund. record fund { available_balance = fund.available_balance - refund_amount })
            >> pay_out l borrower refund_amount)
        else pure tt
    emit (insurance_cancelled loan_id borrower refund_amount l.timestamp)
    pure refund_amount

  unfoldable pub deposit_to_insurance_fund : Ledger → Address → ℕ → Action World (Unit {0})
  unfolding require_admin init_insurance_fund_if_needed transfer
  deposit_to_insurance_fund l admin amount = do
    require_admin l admin
    raise_if (amount == 0) invalid_amount
    init_insurance_fund_if_needed
    stored ← gets (λ s. s.token)
    token ← unwrap stored
    transfer x token admin l.contract_id amount
    change_fund
        λ fund. record fund { available_balance = saturating_add_u64 fund.available_balance amount }

  unfoldable pub withdraw_from_insurance_fund : Ledger → Address → ℕ → Action World (Unit {0})
  unfolding require_admin init_insurance_fund_if_needed pay_out
  withdraw_from_insurance_fund l admin amount = do
    require_admin l admin
    raise_if (amount == 0) invalid_amount
    init_insurance_fund_if_needed
    stored ← gets (λ s. s.insurance_fund)
    fund ← or_raise stored insurance_not_found
    raise_if (ltb fund.available_balance amount) insufficient_liquidity
    change_fund λ fund. record fund { available_balance = fund.available_balance - amount }
    pay_out l admin amount
