-- ===== src/Lending/Insurance/Covers.antt =====
-- contracts/lending-contract/src/lib.rs: what an insurance costs, pays and refunds.
use xource_x.Prelude.{ℕ, ◌+◌, ◌-◌, ◌*◌, ◌≤◌, ◌<◌, ◌≡◌, true, false, none, some, arith, zero, suc}
use native.Mathlib.Nat.{mul-le-mul_left, le_of_mul-le-mul_right, le_trans}
use xource_x.Prelude.Words.{
  as_u64, saturating_add_u64, mul_div_u128, mul_div_u128-le, as_u64-mul-le,
}
use xource_x.Prelude.Outcome.{ok, err}
use xource_x.Prelude.Dict.{or_default}
use xource_x.AccessControl.{Address}
use xource_x.Lending.Types.{LoanRecord, LoanInsurance, insurance_already_claimed}
use xource_x.Lending.Store.{External, Ledger, Store, grace_period_end, transfer}
use xource_x.Lending.Insurance.{
  no_fund, default_insurance_premium_rate_bps, init_insurance_fund_if_needed, premium_at, pay_out,
  get_insurance_coverage, refund_of, is_active, is_loan_insured, claim_insurance,
  purchase_loan_insurance, cancel_insurance,
}

-- The fund's balance.
abbrev pub fund_balance : {W : Type 0} → Store W → ℕ
fund_balance s = (or_default no_fund s.insurance_fund).available_balance

mul_div_u128_zero : (a b : ℕ) → mul_div_u128 a b 0 ≡ 0
unfolding mul_div_u128
mul_div_u128_zero a b = ground arith

share-le :
    (premium left total : ℕ) → left ≤ total → as_u64 (mul_div_u128 premium left total) ≤ premium
share-le premium left zero h = ground (arith, mul_div_u128_zero premium left)
share-le premium left (suc n) h =
    le_of_mul-le-mul_right
      (le_trans
        (as_u64-mul-le (mul_div_u128 premium left (suc n)) (suc n) (premium * left)
          (mul_div_u128-le premium left (suc n)))
        (mul-le-mul_left premium h))
      (omega arith)

-- A cancellation never pays back more than the premium, and nothing once the insurance has expired.
pub refund_of-le :
    (now : ℕ) (insurance : LoanInsurance)
    → (refund_of now insurance ≤ insurance.premium_paid)
      × (insurance.expires_at ≤ now → refund_of now insurance ≡ 0)
unfolding refund_of
refund_of-le now insurance =
    let total = insurance.expires_at - insurance.purchase_time in
    let elapsed = now - insurance.purchase_time in
    ground (arith, share-le insurance.premium_paid (total - elapsed) total (omega arith))

module _ {W : Type 0} (l : Ledger) (s t : Store W) where
  pub claim_insurance-Claimed :
      (loan_id paid : ℕ) (insurance : LoanInsurance)
      → s.insurance loan_id ≡ some insurance
      → claim_insurance l loan_id s ≡ ok (paid, t)
      → (insurance.claimed ≡ false)
        × (paid ≡ insurance.coverage_amount)
        × (fund_balance t + paid ≡ fund_balance s)
        × (t.world ≡ s.world)
        × (claim_insurance l loan_id t ≡ err insurance_already_claimed)
  unfolding claim_insurance grace_period_end
  claim_insurance-Claimed loan_id paid insurance held h = ground arith

  -- While the loan's grace period ends when the insurance expires, as it does when it is purchased,
  -- `is_loan_insured` says no and the coverage reads as 0 at every time at which a claim succeeds.
  claim_insurance-is_loan_insured :
      (loan_id paid : ℕ) (insurance : LoanInsurance) (loan : LoanRecord)
      → s.insurance loan_id ≡ some insurance
      → s.loans_by_id loan_id ≡ some loan
      → grace_period_end loan s ≡ ok (insurance.expires_at, s)
      → claim_insurance l loan_id s ≡ ok (paid, t)
      → (is_loan_insured l loan_id s ≡ ok (false, s))
        × (get_insurance_coverage l loan_id s ≡ ok (0, s))
  unfolding claim_insurance is_loan_insured is_active get_insurance_coverage
  claim_insurance-is_loan_insured loan_id paid insurance loan held found ends h = ground arith

module _ (x : External) (l : Ledger) (s t : Store x.World) where
  pub purchase_loan_insurance-Purchased :
      (borrower : Address) (loan_id premium grace_end : ℕ) (loan : LoanRecord)
      → s.loans_by_id loan_id ≡ some loan
      → grace_period_end loan s ≡ ok (grace_end, s)
      → purchase_loan_insurance x l borrower loan_id s ≡ ok (premium, t)
      → (l.authorized borrower ≡ true)
        × (loan.borrower ≡ borrower)
        × (s.insurance loan_id ≡ none)
        × (0 < premium)
        × (t.insurance loan_id
            ≡ some (record {
              loan_id = loan_id;
              borrower = borrower;
              coverage_amount = loan.principal;
              premium_paid = premium;
              premium_rate_bps =
                  or_default default_insurance_premium_rate_bps s.insurance_premium_rate;
              purchase_time = l.timestamp;
              expires_at = grace_end;
              claimed = false;
            }))
        × (fund_balance t ≡ saturating_add_u64 (fund_balance s) premium)
  unfolding purchase_loan_insurance init_insurance_fund_if_needed premium_at transfer
      grace_period_end
  purchase_loan_insurance-Purchased borrower loan_id premium grace_end loan found ends h =
      ground arith

  -- A cancellation pays the borrower the refund, removes the insurance, and takes the refund from
  -- the fund, down to 0: it does not ask that the fund holds as much.
  pub cancel_insurance-Cancelled :
      (borrower : Address) (loan_id paid : ℕ) (insurance : LoanInsurance)
      → s.insurance loan_id ≡ some insurance
      → cancel_insurance x l borrower loan_id s ≡ ok (paid, t)
      → (l.authorized borrower ≡ true)
        × (insurance.borrower ≡ borrower)
        × (insurance.claimed ≡ false)
        × (paid ≡ refund_of l.timestamp insurance)
        × (paid ≤ insurance.premium_paid)
        × (t.insurance loan_id ≡ none)
        × (fund_balance t ≡ fund_balance s - paid)
  unfolding cancel_insurance pay_out transfer
  cancel_insurance-Cancelled borrower loan_id paid insurance held h =
      ground (arith, refund_of-le l.timestamp insurance)
