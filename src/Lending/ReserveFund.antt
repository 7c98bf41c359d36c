-- ===== src/Lending/ReserveFund.antt =====
-- contracts/lending-contract/src/lib.rs: the reserve fund of a pool: the reserve factor, what the
-- admin moves in and out of the bad-debt reserve, bad-debt write-offs, and the accrual of interest
-- to the reserve.
pub mod Effects
use xource_x.Prelude.{
  ℕ, ◌-◌, ◌/◌, Bool, true, false, not, Option, none, some, ltb, ◌==◌, if◌then◌else◌,
}
use xource_x.Prelude.Words.{as_u64, mul_div_u128, saturating_add_u64}
use xource_x.Prelude.Outcome.{◌>>=◌, ◌>>◌, pure, gets, modify, raise_if, or_raise}
use xource_x.Prelude.Dict.{update}
use xource_x.AccessControl.{Address}
use xource_x.Lending.Types.{
  LoanRecord, invalid_amount, unauthorized, insufficient_liquidity, loan_not_found,
  bad_debt_liquidated, bad_debt_reserve_replenished,
}
use xource_x.Lending.Store.{
  External, Ledger, Action, emit, require_auth, require_initialized, require_admin,
  ensure_not_paused, get_pool, set_pool, remove_user_loan, transfer,
}
use xource_x.Lending.Terms.{get_open_loan, is_in_grace_period, interest_due}
use xource_x.Lending.Loans.{get_repayment_amount}

-- Depositors' and protocol's part of the interest.
unfoldable pub calculate_interest_split : ℕ → ℕ → ℕ × ℕ
calculate_interest_split total_interest reserve_factor_bps =
    let protocol_share = as_u64 (mul_div_u128 total_interest reserve_factor_bps 10000) in
    (total_interest - protocol_share, protocol_share)

-- The caller is the stored admin.
unfoldable pub require_stored_admin : {W : Type 0} → Ledger → Address → Action W (Unit {0})
require_stored_admin l admin = do
  require_auth l admin
  stored ← gets (λ s. s.admin)
  raise_if (not (elim stored [ some a ↦ a == admin | none ↦ false ])) unauthorized

unfoldable pub set_reserve_factor :
    {W : Type 0} → Ledger → Address → Address → ℕ → Action W (Unit {0})
unfolding require_stored_admin get_pool set_pool
set_reserve_factor l admin asset reserve_factor_bps = do
  require_stored_admin l admin
  raise_if (ltb 10000 reserve_factor_bps) invalid_amount
  pool ← get_pool asset
  set_pool asset (record pool { reserve_factor_bps = reserve_factor_bps })

-- Anyone may call this, for any loan.
unfoldable pub accrue_interest_with_reserve : {W : Type 0} → Ledger → ℕ → Action W (Unit {0})
unfolding get_pool set_pool calculate_interest_split
accrue_interest_with_reserve l loan_id = do
  found ← gets (λ s. s.loans_by_id loan_id)
  loan ← or_raise found loan_not_found
  pool ← get_pool loan.asset
  let split = calculate_interest_split (interest_due l loan) pool.reserve_factor_bps
  set_pool loan.asset (record pool {
    retained_yield = saturating_add_u64 pool.retained_yield split.0;
    bad_debt_reserve = saturating_add_u64 pool.bad_debt_reserve split.1;
    total_protocol_revenue = saturating_add_u64 pool.total_protocol_revenue split.1;
  })

module _ (x : External) where
  open x use {World}

  -- `withdraw_reserves` pays the admin, `allocate_reserves` the insurance fund.
  unfoldable pub pay_from_reserve :
      Ledger → Address → Address → ℕ → Address → Action World (Unit {0})
  unfolding require_stored_admin get_pool set_pool transfer
  pay_from_reserve l admin asset amount receiver = do
    require_stored_admin l admin
    pool ← get_pool asset
    raise_if (ltb pool.bad_debt_reserve amount) insufficient_liquidity
    set_pool asset (record pool { bad_debt_reserve = pool.bad_debt_reserve - amount })
    transfer x asset l.contract_id receiver amount

  unfoldable pub withdraw_reserves : Ledger → Address → Address → ℕ → Action World (Unit {0})
  unfolding pay_from_reserve
  withdraw_reserves l admin asset amount = pay_from_reserve l admin asset amount admin

  unfoldable pub allocate_reserves :
      Ledger → Address → Address → ℕ → Address → Action World (Unit {0})
  unfolding pay_from_reserve
  allocate_reserves l admin asset amount insurance_fund =
      pay_from_reserve l admin asset amount insurance_fund

  unfoldable pub replenish_bad_debt_reserve : Ledger → Address → Address → ℕ → Action World ℕ
  unfolding ensure_not_paused require_initialized require_admin get_pool set_pool transfer
  replenish_bad_debt_reserve l admin asset amount = do
    ensure_not_paused
    require_initialized
    require_admin l admin
    raise_if (amount == 0) invalid_amount
    pool ← get_pool asset
    transfer x asset admin l.contract_id amount
    let balance = saturating_add_u64 pool.bad_debt_reserve amount
    set_pool asset (record pool { bad_debt_reserve = balance })
    emit (bad_debt_reserve_replenished asset amount balance)
    pure balance

  -- What the pool and the loans are after a write-off.
  unfoldable pub write_off : Address → LoanRecord → ℕ → Action World (Unit {0})
  unfolding get_pool set_pool remove_user_loan
  write_off borrower loan shortfall = do
    pool ← get_pool loan.asset
    raise_if (ltb pool.bad_debt_reserve shortfall) insufficient_liquidity
    set_pool loan.asset (record pool {
      bad_debt_reserve = pool.bad_debt_reserve - shortfall;
      total_borrowed = pool.total_borrowed - loan.principal;
    })
    modify (λ s. record s {
      loans = update borrower none s.loans;
      loans_by_id = update loan.loan_id none s.loans_by_id;
    })
    remove_user_loan borrower loan.loan_id
    modify (λ s. record s { late_fees_accrued = update loan.loan_id 0 s.late_fees_accrued })

  unfoldable pub liquidate_bad_debt : Ledger → Address → Address → Action World ℕ
  unfolding ensure_not_paused require_initialized require_admin get_open_loan is_in_grace_period
      get_repayment_amount write_off
  liquidate_bad_debt l admin borrower = do
    ensure_not_paused
    require_initialized
    require_admin l admin
    loan ← get_open_loan borrower
    in_grace ← is_in_grace_period l borrower
    raise_if in_grace invalid_amount
    outstanding_balance ← get_repayment_amount x l borrower
    let shortfall = outstanding_balance - loan.collateral_amount
    write_off borrower loan shortfall
    emit (
        bad_debt_liquidated loan.loan_id borrower loan.asset outstanding_balance
          loan.collateral_amount shortfall)
    pure shortfall
