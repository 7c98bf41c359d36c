-- ===== src/Lending/Loans.antt =====
-- contracts/lending-contract/src/lib.rs: `borrow`, `repay` and the views of an open loan.
pub mod Borrow
pub mod Repay
use Prim.Native.Char.{code}
use Prim.Native.String.{String}
use xource_x.Prelude.{
  ℕ, ◌+◌, ◌-◌, ◌*◌, ◌/◌, ◌%◌, Bool, true, false, not, ◌||◌, Option, none, some, List, [], ◌∷◌, ◌++◌,
  ltb, leb, ◌==◌, if◌then◌else◌,
}
use xource_x.Prelude.Words.{as_u64, u128_mod, checked_mul_u128, mul_div_u128}
use xource_x.Prelude.Outcome.{◌>>=◌, ◌>>◌, pure, gets, modify, raise_if, or_raise, unwrap}
use xource_x.Prelude.Dict.{update, or_default}
use xource_x.AccessControl.{Address}
use xource_x.Lending.Types.{
  PoolState, LoanRecord, invalid_amount, pool_paused, insufficient_liquidity, no_open_loan,
  collateral_not_whitelisted, loan_already_exists, insufficient_collateral,
  utilization_cap_exceeded, borrowed, collateral_deposited, repaid, late_fee_charged,
  interest_accrued,
}
use xource_x.Lending.Math.{
  calculate_interest, get_utilization_bps, calculate_dynamic_rate, two_slope_rate,
  calc_ltv_ratio_bps, seconds_in_day,
}
use xource_x.Lending.Math.Decimal.{append_u64_to_bytes}
use xource_x.Lending.Store.{
  External, NftLoanMetadata, Ledger, Store, Action, emit, require_auth, add_u64, sub_u64,
  require_initialized, enter_reentrancy_guard, exit_reentrancy_guard, ensure_not_paused, get_pool,
  set_pool, increment_loan_id, add_user_loan, remove_user_loan, add_reserve_collateral,
  sub_reserve_collateral, add_reserve_borrowed, sub_reserve_borrowed, grace_period_end, transfer,
  invoke,
}
use xource_x.Lending.Pool.{available, flash_defense}
use xource_x.Lending.Terms.{
  rate_at, reserve_borrow, reserve_repay, get_open_loan, calculate_late_fee, interest_due,
  mint_loan_nft, burn_loan_nft,
}

abbrev pub protocol_interest_bps : ℕ
protocol_interest_bps = 1000

abbrev pub bad_debt_reserve_bps : ℕ
bad_debt_reserve_bps = 5000

module _ (x : External) where
  open x use {World}

  -- The tests of `borrow`, in order, up to the first transfer.
  unfoldable pub admit_borrow :
      Ledger → Address → Address → ℕ → Address → ℕ → Action World PoolState
  unfolding ensure_not_paused require_initialized enter_reentrancy_guard get_pool flash_defense
  admit_borrow l borrower asset amount collateral_token collateral_amount = do
    ensure_not_paused
    require_initialized
    enter_reentrancy_guard
    require_auth l borrower
    raise_if ((amount == 0) || (collateral_amount == 0)) invalid_amount
    flash_defense l collateral_token borrower
    pool ← get_pool asset
    raise_if pool.is_paused pool_paused
    whitelisted ← gets (λ s. s.whitelisted_collateral collateral_token)
    raise_if (not whitelisted) collateral_not_whitelisted
    existing_loans ← gets (λ s. s.user_loans borrower)
    raise_if (elim existing_loans [ [] ↦ false | _ ∷ _ ↦ true ]) loan_already_exists
    ratio ← gets (λ s. or_default 15000 s.collateral_ratio)
    raise_if (ltb collateral_amount (as_u64 (mul_div_u128 amount ratio 10000)))
        insufficient_collateral
    raise_if (ltb (available pool) amount) insufficient_liquidity
    new_borrowed ← add_u64 pool.total_borrowed amount
    raise_if (ltb pool.utilization_cap_bps (get_utilization_bps new_borrowed pool.total_deposits))
        utilization_cap_exceeded
    pure pool

  -- The collateral comes in, and the tallies and the pool book the loan; returns its rate.
  unfoldable pub fund_borrow :
      Ledger → Address → Address → ℕ → Address → ℕ → PoolState → Action World ℕ
  unfolding transfer reserve_borrow rate_at set_pool
  fund_borrow l borrower asset amount collateral_token collateral_amount pool = do
    transfer x collateral_token borrower l.contract_id collateral_amount
    reserve_borrow collateral_token collateral_amount amount
    total_borrowed ← add_u64 pool.total_borrowed amount
    rate ← rate_at pool (get_utilization_bps total_borrowed pool.total_deposits)
    set_pool asset (record pool { total_borrowed = total_borrowed })
    pure rate

  -- The loan is given the next id and stored under its borrower and its id.
  unfoldable pub store_loan :
      Ledger → Address → Address → ℕ → Address → ℕ → ℕ → ℕ → Action World LoanRecord
  unfolding increment_loan_id add_user_loan
  store_loan l borrower asset amount collateral_token collateral_amount duration_seconds rate = do
    loan_id ← increment_loan_id
    due_date ← add_u64 l.timestamp duration_seconds
    let loan : LoanRecord = record {
      loan_id = loan_id;
      borrower = borrower;
      asset = asset;
      principal = amount;
      collateral_amount = collateral_amount;
      collateral_token = collateral_token;
      borrow_time = l.timestamp;
      due_date = due_date;
      interest_rate_bps = rate;
    }
    modify (λ s. record s {
      loans = update borrower (some loan) s.loans;
      loans_by_id = update loan_id (some loan) s.loans_by_id;
    })
    add_user_loan borrower loan_id
    pure loan

  -- The NFT is minted, the loan paid out and the lock released.
  unfoldable pub pay_out_loan : Ledger → LoanRecord → Action World ℕ
  unfolding mint_loan_nft transfer exit_reentrancy_guard
  pay_out_loan l loan = do
    mint_loan_nft x loan
    transfer x loan.asset l.contract_id loan.borrower loan.principal
    emit (
        borrowed loan.loan_id loan.borrower loan.asset loan.principal loan.collateral_amount
          loan.due_date)
    emit (
        collateral_deposited loan.loan_id loan.borrower loan.collateral_token
          loan.collateral_amount)
    exit_reentrancy_guard
    pure loan.loan_id

  unfoldable pub borrow : Ledger → Address → Address → ℕ → Address → ℕ → ℕ → Action World ℕ
  borrow l borrower asset amount collateral_token collateral_amount duration_seconds = do
    pool ← admit_borrow l borrower asset amount collateral_token collateral_amount
    rate ← fund_borrow l borrower asset amount collateral_token collateral_amount pool
    loan ←
        store_loan l borrower asset amount collateral_token collateral_amount duration_seconds rate
    pay_out_loan l loan

  -- The tests of `repay`, and the amounts: the loan, its late fee and the end of its grace period.
  unfoldable pub admit_repay : Ledger → Address → Action World (LoanRecord × ℕ × ℕ)
  unfolding ensure_not_paused require_initialized enter_reentrancy_guard get_open_loan
      calculate_late_fee grace_period_end
  admit_repay l borrower = do
    ensure_not_paused
    require_initialized
    enter_reentrancy_guard
    require_auth l borrower
    loan ← get_open_loan borrower
    late_fee ← calculate_late_fee l borrower
    grace_end ← grace_period_end loan
    pure (loan, late_fee, grace_end)

  -- Principal, interest and fee come in, the collateral goes back, and the tallies are lowered.
  unfoldable pub collect_repayment : Ledger → Address → LoanRecord → ℕ → Action World ℕ
  unfolding transfer reserve_repay
  collect_repayment l borrower loan late_fee = do
    owed ← add_u64 loan.principal (interest_due l loan)
    total_repayment ← add_u64 owed late_fee
    transfer x loan.asset borrower l.contract_id total_repayment
    transfer x loan.collateral_token l.contract_id borrower loan.collateral_amount
    reserve_repay loan.collateral_token loan.collateral_amount loan.principal
    pure total_repayment

  -- The pool books the repayment: a tenth of the interest is split between the retained yield and
  -- the bad-debt reserve, the late fee is retained, and the rest of the interest is deposited.
  unfoldable pub book_repayment : LoanRecord → ℕ → ℕ → Action World (Unit {0})
  unfolding get_pool set_pool
  book_repayment loan interest late_fee = do
    pool ← get_pool loan.asset
    total_borrowed ← sub_u64 pool.total_borrowed loan.principal
    let protocol_share = as_u64 (mul_div_u128 interest protocol_interest_bps 10000)
    let reserve_share = as_u64 (mul_div_u128 protocol_share bad_debt_reserve_bps 10000)
    let retained_share = protocol_share - reserve_share
    pool_share ← sub_u64 interest protocol_share
    total_deposits ← add_u64 pool.total_deposits pool_share
    fees ← add_u64 retained_share late_fee
    retained_yield ← add_u64 pool.retained_yield fees
    bad_debt_reserve ← add_u64 pool.bad_debt_reserve reserve_share
    set_pool loan.asset (record pool {
      total_deposits = total_deposits;
      total_borrowed = total_borrowed;
      retained_yield = retained_yield;
      bad_debt_reserve = bad_debt_reserve;
    })

  -- The loan is forgotten, its NFT burned, the events published and the lock released.
  unfoldable pub close_loan : Ledger → Address → LoanRecord → ℕ → ℕ → ℕ → Action World ℕ
  unfolding remove_user_loan burn_loan_nft exit_reentrancy_guard
  close_loan l borrower loan late_fee grace_end total_repayment = do
    modify (λ s. record s {
      loans = update borrower none s.loans;
      loans_by_id = update loan.loan_id none s.loans_by_id;
    })
    remove_user_loan borrower loan.loan_id
    modify (λ s. record s { late_fees_accrued = update loan.loan_id 0 s.late_fees_accrued })
    burn_loan_nft x loan.loan_id
    (if ltb 0 late_fee
        then emit (
            late_fee_charged loan.loan_id borrower loan.asset late_fee
              ((l.timestamp - grace_end) / seconds_in_day) total_repayment l.timestamp)
        else pure tt)
    emit (
        repaid loan.loan_id borrower loan.asset loan.principal (interest_due l loan) total_repayment
          loan.collateral_amount)
    exit_reentrancy_guard
    pure total_repayment

  unfoldable pub repay : Ledger → Address → Action World ℕ
  repay l borrower = do
    due ← admit_repay l borrower
    total_repayment ← collect_repayment l borrower due.0 due.1
    book_repayment due.0 (interest_due l due.0) due.1
    close_loan l borrower due.0 due.1 due.2 total_repayment

  -- `get_repayment_amount`
  unfoldable pub get_repayment_amount : Ledger → Address → Action World ℕ
  unfolding get_open_loan
  get_repayment_amount l borrower = do
    loan ← get_open_loan borrower
    late_fee ← calculate_late_fee l borrower
    owed ← add_u64 loan.principal (interest_due l loan)
    add_u64 owed late_fee

  unfoldable pub emit_interest_accrual : Ledger → Address → Action World ℕ
  unfolding require_initialized get_open_loan
  emit_interest_accrual l borrower = do
    require_initialized
    loan ← get_open_loan borrower
    let interest = interest_due l loan
    emit (
        interest_accrued loan.loan_id borrower loan.asset loan.principal interest
          loan.interest_rate_bps (l.timestamp - loan.borrow_time) l.timestamp)
    pure interest

  unfoldable pub get_total_due_with_late_fees : Ledger → Address → Action World ℕ
  unfolding require_initialized get_open_loan
  get_total_due_with_late_fees l borrower = do
    require_initialized
    loan ← get_open_loan borrower
    late_fee ← calculate_late_fee l borrower
    owed ← add_u64 loan.principal (interest_due l loan)
    add_u64 owed late_fee
