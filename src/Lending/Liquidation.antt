-- ===== src/Lending/Liquidation.antt =====
-- contracts/lending-contract/src/lib.rs: `liquidate`.
pub mod Effects
use xource_x.Prelude.{ℕ, ◌+◌, ◌-◌, Bool, true, false, ◌||◌, not, ltb, leb, ◌==◌, if◌then◌else◌}
use xource_x.Prelude.Words.{as_u32, as_u64, mul_div_u128}
use xource_x.Prelude.Outcome.{◌>>=◌, ◌>>◌, pure, raise_if}
use xource_x.AccessControl.{Address}
use xource_x.Lending.Types.{PoolState, LoanRecord, invalid_amount, liquidated}
use xource_x.Lending.Store.{
  External, Ledger, Store, Action, emit, require_auth, add_u64, require_initialized,
  enter_reentrancy_guard, exit_reentrancy_guard, get_pool, set_pool, grace_period_end, transfer,
}
use xource_x.Lending.Terms.{get_open_loan}

abbrev pub liquidation_threshold_bps : ℕ
liquidation_threshold_bps = 15000

-- Collateral over debt in basis points, as the u32 that the code compares.
unfoldable pub health_factor : LoanRecord → ℕ
health_factor loan = as_u32 (mul_div_u128 loan.collateral_amount 10000 loan.principal)

-- 150% of the repaid amount. The product of a u64 with 15000 fits a u128, so the fallback of the
-- source is never taken.
unfoldable pub collateral_to_seize : ℕ → ℕ
collateral_to_seize amount = as_u64 (mul_div_u128 amount 15000 10000)

module _ (x : External) where
  open x use {World}

  -- The pool is read again after the transfers, and booked.
  unfoldable pub book_liquidation : LoanRecord → ℕ → Action World (Unit {0})
  unfolding get_pool set_pool
  book_liquidation loan amount = do
    pool ← get_pool loan.asset
    total_deposits ← add_u64 pool.total_deposits amount
    set_pool loan.asset (record pool {
      total_borrowed = pool.total_borrowed - amount;
      total_deposits = total_deposits;
    })

  unfoldable pub liquidate : Ledger → Address → Address → ℕ → Action World ℕ
  unfolding require_initialized enter_reentrancy_guard exit_reentrancy_guard grace_period_end
      transfer get_open_loan book_liquidation
  liquidate l liquidator borrower amount = do
    require_initialized
    enter_reentrancy_guard
    require_auth l liquidator
    loan ← get_open_loan borrower
    raise_if ((amount == 0) || ltb loan.principal amount) invalid_amount
    grace_end ← grace_period_end loan
    raise_if (leb l.timestamp grace_end) invalid_amount
    raise_if (leb liquidation_threshold_bps (health_factor loan)) invalid_amount
    raise_if (ltb loan.collateral_amount (collateral_to_seize amount)) invalid_amount
    transfer x loan.asset liquidator l.contract_id amount
    transfer x loan.collateral_token l.contract_id liquidator (collateral_to_seize amount)
    book_liquidation loan amount
    emit (
        liquidated loan.loan_id borrower liquidator loan.asset amount (collateral_to_seize amount)
          (health_factor loan))
    exit_reentrancy_guard
    pure (collateral_to_seize amount)
