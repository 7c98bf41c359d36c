-- ===== src/Lending/Refinance/Splitting.antt =====
-- contracts/lending-contract/src/lib.rs: splitting a loan into several.
use xource_x.Prelude.{ℕ, not, ◌||◌, List, [], ◌∷◌, ltb, ◌==◌}
use xource_x.Prelude.Words.{u64_mod, as_u64, mul_div_u128}
use xource_x.Prelude.Lists.{length, sum_of}
use xource_x.Prelude.Outcome.{◌>>=◌, ◌>>◌, pure, panic_if, raise_if}
use xource_x.AccessControl.{Address}
use xource_x.Lending.Types.{
  LoanRecord, invalid_amount, cannot_refinance, invalid_split_amounts, loan_split,
}
use xource_x.Lending.Store.{
  External, Ledger, Action, emit, require_auth, add_u64, require_initialized,
  enter_reentrancy_guard, exit_reentrancy_guard, increment_loan_id,
}
use xource_x.Lending.Terms.{get_open_loan, calculate_outstanding_balance, is_in_grace_period}
use xource_x.Lending.Refinance.{fee_of, current_rate, retain_fee, store_loan, close_for_fee}

-- The part of the collateral that goes with a part of the debt.
unfoldable pub split_collateral : ℕ → ℕ → ℕ → ℕ
split_collateral collateral outstanding amount =
    as_u64 (mul_div_u128 collateral (mul_div_u128 amount 10000 outstanding) 10000)

module _ (x : External) where
  open x use {World}

  -- The loop of `split_loan`: one loan for each part of the outstanding balance.
  unfoldable pub store_parts :
      Ledger
      → Address
      → LoanRecord
      → (outstanding rate due_date : ℕ) → List ℕ
      → Action World (List ℕ)
  unfolding split_collateral increment_loan_id store_loan
  store_parts l borrower old_loan outstanding rate due_date [] = pure []
  store_parts l borrower old_loan outstanding rate due_date (amount ∷ rest) = do
    new_loan_id ← increment_loan_id
    store_loan x (record {
      loan_id = new_loan_id;
      borrower = borrower;
      asset = old_loan.asset;
      principal = amount;
      collateral_amount = split_collateral old_loan.collateral_amount outstanding amount;
      collateral_token = old_loan.collateral_token;
      borrow_time = l.timestamp;
      due_date = due_date;
      interest_rate_bps = rate;
    })
    ids ← store_parts l borrower old_loan outstanding rate due_date rest
    pure (new_loan_id ∷ ids)

  -- `split_loan` up to its first write: the loan, and what it owes.
  unfoldable pub admit_split : Ledger → Address → List ℕ → Action World (LoanRecord × ℕ)
  unfolding require_initialized enter_reentrancy_guard length get_open_loan is_in_grace_period
      calculate_outstanding_balance sum_of
  admit_split l borrower split_amounts = do
    require_initialized
    enter_reentrancy_guard
    require_auth l borrower
    raise_if ((length split_amounts == 0) || ltb 5 (length split_amounts)) invalid_amount
    old_loan ← get_open_loan borrower
    in_grace ← is_in_grace_period l borrower
    raise_if (not in_grace) cannot_refinance
    outstanding ← calculate_outstanding_balance l old_loan
    panic_if (not (ltb (sum_of split_amounts) u64_mod))
    raise_if (not (sum_of split_amounts == outstanding)) invalid_split_amounts
    pure (old_loan, outstanding)

  unfoldable pub split_loan : Ledger → Address → List ℕ → ℕ → Action World (List ℕ)
  unfolding admit_split fee_of close_for_fee current_rate store_parts retain_fee
      exit_reentrancy_guard
  split_loan l borrower split_amounts new_duration_seconds = do
    due ← admit_split l borrower split_amounts
    let split_fee = fee_of due.1
    close_for_fee x l borrower due.0 split_fee
    new_due_date ← add_u64 l.timestamp new_duration_seconds
    rate ← current_rate due.0.asset
    new_loan_ids ← store_parts l borrower due.0 due.1 rate new_due_date split_amounts
    retain_fee due.0.asset split_fee
    emit (
        loan_split due.0.loan_id new_loan_ids borrower due.0.asset due.0.principal split_amounts
          split_fee l.timestamp)
    exit_reentrancy_guard
    pure new_loan_ids
