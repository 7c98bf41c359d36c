-- ===== src/Lending/Tests/Loans.antt =====
-- A loan, its repayment and its liquidation, and a flash loan.
use xource_x.Prelude.{ℕ, ◌+◌, ◌*◌, ◌≡◌, refl, none, some, arith, [], ◌∷◌, List, ◌++◌}
use xource_x.Prelude.Outcome.{err}
use xource_x.Prelude.Dict.{lookup, insert}
use xource_x.Prelude.Words.{mul_div_u128}
use xource_x.Lending.Types.{PoolState, LoanRecord, flash_loan_not_repaid}
use xource_x.Lending.Math.{calculate_interest, get_utilization_bps, calculate_dynamic_rate}
use xource_x.Lending.Math.Decimal.{
  append_u64_to_bytes, read_decimal, AllDigits, append_u64_to_bytes-read_decimal,
}
use xource_x.Lending.Store.{Store}
use xource_x.Lending.Terms.{interest_due}
use xource_x.Lending.Pool.{available}
use xource_x.Lending.Loans.{
  borrow, repay, admit_borrow, fund_borrow, store_loan, pay_out_loan, admit_repay,
  collect_repayment, book_repayment, close_loan,
}
use xource_x.Lending.Loans.Borrow.{Borrowed, borrow-Borrowed}
use xource_x.Lending.Loans.Repay.{Repaid, repay-Repaid}
use xource_x.Lending.Liquidation.{liquidate, health_factor, collateral_to_seize}
use xource_x.Lending.Liquidation.Effects.{Liquidated, liquidate-Liquidated, liquidate-double_credit}
use xource_x.Lending.Flash.{Receiver, flash_loan, flash_loan_inner}
use xource_x.Lending.Flash.Effects.{FlashLoaned, flash_loan-FlashLoaned}
use xource_x.Lending.Tests.Setup.{transfer_on, mock, ledger, later, pool, store, after}

-- User 2 borrows 1 000 of asset 9 for an hour against 1 200 of token 8.
abbrev borrowed : Store mock.World
unfolding borrow admit_borrow fund_borrow store_loan pay_out_loan
borrowed = after store (borrow mock ledger 2 9 1_000 8 1_200 3_600 store)

abbrev loan : LoanRecord
loan = record {
  loan_id = 1;
  borrower = 2;
  asset = 9;
  principal = 1_000;
  collateral_amount = 1_200;
  collateral_token = 8;
  borrow_time = 1_000;
  due_date = 4_600;
  interest_rate_bps = 666;
}

abbrev repaid : Store mock.World
unfolding repay admit_repay collect_repayment book_repayment close_loan
repaid = after borrowed (repay mock ledger 2 borrowed)

abbrev liquidated : Store mock.World
unfolding liquidate
liquidated = after borrowed (liquidate mock later 3 2 600 borrowed)

abbrev pool_of : Store mock.World → PoolState
pool_of s = elim (s.pools 9) [ some p ↦ p | none ↦ pool ]

loan_stored : borrowed.loans 2 ≡ some loan
unfolding borrow admit_borrow fund_borrow store_loan pay_out_loan transfer_on lookup insert
    mul_div_u128 get_utilization_bps calculate_dynamic_rate
loan_stored = refl

borrow-Borrowed_example :
    (p : PoolState) × (m : LoanRecord) × (received : mock.World) × (minted : mock.World) × Borrowed
      mock ledger store borrowed 2 9 1_000 8 1_200 3_600 1 p m received minted
unfolding borrow admit_borrow fund_borrow store_loan pay_out_loan transfer_on lookup insert
    mul_div_u128 get_utilization_bps calculate_dynamic_rate
borrow-Borrowed_example = borrow-Borrowed mock ledger 2 9 1_000 8 1_200 3_600 1 refl

repay-Repaid_example :
    (m : LoanRecord) × (late_fee : ℕ) × (p : PoolState) × (received : mock.World)
    × (returned : mock.World) × Repaid mock ledger borrowed repaid 2 1_000 m late_fee p received
        returned
unfolding borrow admit_borrow fund_borrow store_loan pay_out_loan transfer_on lookup insert
    mul_div_u128 get_utilization_bps calculate_dynamic_rate repay admit_repay collect_repayment
    book_repayment close_loan interest_due calculate_interest
repay-Repaid_example = repay-Repaid mock ledger 2 1_000 refl

liquidate-Liquidated_example :
    (m : LoanRecord) × (p : PoolState) × (received : mock.World) × Liquidated mock later borrowed
      liquidated 3 2 600 900 m p received
unfolding borrow admit_borrow fund_borrow store_loan pay_out_loan transfer_on lookup insert
    mul_div_u128 get_utilization_bps calculate_dynamic_rate liquidate health_factor
    collateral_to_seize
liquidate-Liquidated_example = liquidate-Liquidated mock later 3 2 600 900 refl

liquidate-double_credit_example :
    (received : mock.World) × (mock.transfer 9 3 100 600 borrowed.world ≡ some received)
    × (mock.transfer 8 100 3 900 received ≡ some liquidated.world)
    × (available (pool_of liquidated) ≡ available (pool_of borrowed) + 2 * 600)
unfolding borrow admit_borrow fund_borrow store_loan pay_out_loan transfer_on lookup insert
    mul_div_u128 get_utilization_bps calculate_dynamic_rate liquidate health_factor
    collateral_to_seize
liquidate-double_credit_example =
    liquidate-double_credit mock later borrowed liquidated 3 2 600 900 loan (pool_of borrowed)
      (pool_of liquidated) refl refl refl (omega arith) (omega arith) refl

-- The receiver 66 returns the loan and the fee of 9, out of its own tokens and those of user 3.
abbrev honest : Receiver mock
unfolding transfer_on
honest amount fee initiator s = elim (mock.transfer 9 66 100 amount s.world) [
  | some w ↦ elim (mock.transfer 9 3 100 fee w) [
    | some w' ↦ some (record s { world = w' })
    | none ↦ none
  ]
  | none ↦ none
]

-- The receiver keeps the tokens.
abbrev thief : Receiver mock
thief amount fee initiator s = some s

abbrev lent : Store mock.World
unfolding flash_loan flash_loan_inner
lent = after store (flash_loan mock ledger 3 66 honest 9 9_000 store)

flash_loan_kept : flash_loan mock ledger 3 66 thief 9 9_000 store ≡ err flash_loan_not_repaid
unfolding flash_loan flash_loan_inner transfer_on lookup insert mul_div_u128 get_utilization_bps
flash_loan_kept = refl

flash_loan-FlashLoaned_example :
    (p : PoolState) × (w : mock.World) × (called : Store mock.World) × FlashLoaned mock ledger store
      lent 3 66 honest 9 9_000 p w called
unfolding flash_loan flash_loan_inner transfer_on lookup insert mul_div_u128 get_utilization_bps
flash_loan-FlashLoaned_example = flash_loan-FlashLoaned mock ledger 3 66 honest 9 9_000 refl

append_u64_to_bytes-read_decimal_example :
    (digits : List ℕ) × (append_u64_to_bytes (b'#' ∷ []) 2_048 ≡ some ((b'#' ∷ []) ++ digits))
    × (read_decimal 0 digits ≡ 2_048)
    × AllDigits digits
append_u64_to_bytes-read_decimal_example =
    append_u64_to_bytes-read_decimal (b'#' ∷ []) 2_048 (omega arith)
