-- ===== src/Lending/Terms.antt =====
-- contracts/lending-contract/src/lib.rs: the terms of a loan: its rate, interest, late fee, reserve
-- tallies and NFT, as `borrow` and `repay` compute and book them.
use Prim.Native.Char.{code}
use Prim.Native.String.{String}
use xource_x.Prelude.{
  ℕ, ◌-◌, ◌/◌, Bool, Option, none, some, List, [], ◌∷◌, ◌++◌, ltb, leb, ◌==◌, if◌then◌else◌,
}
use xource_x.Prelude.Words.{as_u64, checked_mul_u128, mul_div_u128}
use xource_x.Prelude.Outcome.{◌>>=◌, ◌>>◌, pure, gets, or_raise, unwrap}
use xource_x.Prelude.Dict.{or_default}
use xource_x.AccessControl.{Address}
use xource_x.Lending.Types.{PoolState, LoanRecord, no_open_loan}
use xource_x.Lending.Math.{
  calculate_interest, calculate_dynamic_rate, two_slope_rate, calc_ltv_ratio_bps, seconds_in_day,
}
use xource_x.Lending.Math.Decimal.{append_u64_to_bytes}
use xource_x.Lending.Store.{
  External, Ledger, Action, add_u64, require_initialized, get_pool, add_reserve_collateral,
  sub_reserve_collateral, add_reserve_borrowed, sub_reserve_borrowed, grace_period_end, invoke,
}

-- The bytes of an ASCII text.
abbrev bytes : String → List ℕ
bytes String.[] = []
bytes (String.◌∷◌ c s) = code c ∷ bytes s

-- Each text, and the number printed behind it; `none` is a panic of the printer.
append_fields : List ℕ → List (String × ℕ) → Option (List ℕ)
append_fields out [] = some out
append_fields out ((text, n) ∷ rest) = elim (append_u64_to_bytes (out ++ bytes text) n) [
  | some out' ↦ append_fields out' rest
  | none ↦ none
]

-- The JSON text that a loan NFT carries.
unfoldable pub build_loan_nft_uri : ℕ → ℕ → ℕ → ℕ → ℕ → Option (List ℕ)
unfolding append_fields
build_loan_nft_uri loan_id principal collateral_amount ltv_ratio_bps due_date =
    elim (append_fields [] (
      ("{\"name\":\"XourceX Loan NFT #", loan_id)
      ∷ ("\",\"loan_id\":", loan_id)
      ∷ (",\"principal\":", principal)
      ∷ (",\"collateral_amount\":", collateral_amount)
      ∷ (",\"ltv_ratio_bps\":", ltv_ratio_bps)
      ∷ (",\"plan_id\":0,\"due_date\":", due_date)
      ∷ [])) [ some out ↦ some (out ++ bytes "}") | none ↦ none ]

-- The interest that a loan has accrued since it was taken.
unfoldable pub interest_due : Ledger → LoanRecord → ℕ
interest_due l loan =
    calculate_interest loan.principal loan.interest_rate_bps (l.timestamp - loan.borrow_time)

module _ {W : Type 0} where
  -- The rate that a loan is given at a utilization: the configured model's, or the pool's own.
  unfoldable pub rate_at : PoolState → ℕ → Action W ℕ
  rate_at pool utilization_bps = do
    found ← gets (λ s. s.rate_model)
    pure (elim found [
      | some model ↦ two_slope_rate model utilization_bps
      | none ↦ calculate_dynamic_rate pool.base_rate_bps pool.multiplier_bps utilization_bps
    ])

  -- The isolated tallies of the collateral's reserve, where one is registered.
  unfoldable pub reserve_borrow : Address → ℕ → ℕ → Action W (Unit {0})
  unfolding add_reserve_collateral add_reserve_borrowed
  reserve_borrow token collateral_amount amount = do
    found ← gets (λ s. s.reserves token)
    elim found [
      | some reserve ↦ (do
        add_reserve_collateral token collateral_amount
        add_reserve_borrowed token amount)
      | none ↦ pure tt
    ]

  unfoldable pub reserve_repay : Address → ℕ → ℕ → Action W (Unit {0})
  unfolding sub_reserve_collateral sub_reserve_borrowed
  reserve_repay token collateral_amount principal = do
    found ← gets (λ s. s.reserves token)
    elim found [
      | some reserve ↦ (do
        sub_reserve_collateral token collateral_amount
        sub_reserve_borrowed token principal)
      | none ↦ pure tt
    ]

  unfoldable pub get_open_loan : Address → Action W LoanRecord
  get_open_loan borrower = do found ← gets (λ s. s.loans borrower); or_raise found no_open_loan

  -- Principal and accrued interest.
  unfoldable pub calculate_outstanding_balance : Ledger → LoanRecord → Action W ℕ
  calculate_outstanding_balance l loan = add_u64 loan.principal (interest_due l loan)

  unfoldable pub is_in_grace_period : Ledger → Address → Action W Bool
  unfolding require_initialized get_open_loan grace_period_end
  is_in_grace_period l borrower = do
    require_initialized
    loan ← get_open_loan borrower
    grace_end ← grace_period_end loan
    pure (leb l.timestamp grace_end)

  -- The fee of a loan for whole days past its grace period.
  unfoldable pub calculate_late_fee : Ledger → Address → Action W ℕ
  unfolding require_initialized get_open_loan get_pool grace_period_end
  calculate_late_fee l borrower = do
    require_initialized
    loan ← get_open_loan borrower
    pool ← get_pool loan.asset
    grace_end ← grace_period_end loan
    accrued_fees ← gets (λ s. s.late_fees_accrued loan.loan_id)
    let days_overdue = (l.timestamp - grace_end) / seconds_in_day
    let daily_fee = as_u64 (mul_div_u128 loan.principal pool.late_fee_rate_bps 10000)
    pure (
        if leb l.timestamp grace_end
        then 0
        else if days_overdue == 0
        then 0
        else if ltb 0 accrued_fees
        then accrued_fees
        else as_u64 (or_default 0 (checked_mul_u128 daily_fee days_overdue)))

module _ (x : External) where
  open x use {World}

  -- The NFT of a new loan, where an NFT contract is set.
  unfoldable pub mint_loan_nft : LoanRecord → Action World (Unit {0})
  mint_loan_nft loan = do
    found ← gets (λ s. s.nft_token)
    elim found [
      | some nft_token ↦ (do
        let ltv_ratio_bps = calc_ltv_ratio_bps loan.principal loan.collateral_amount
        uri ← unwrap (
            build_loan_nft_uri loan.loan_id loan.principal loan.collateral_amount ltv_ratio_bps
              loan.due_date)
        invoke x (
            x.mint nft_token loan.borrower (record {
              loan_id = loan.loan_id;
              borrower = loan.borrower;
              principal = loan.principal;
              collateral_amount = loan.collateral_amount;
              collateral_token = loan.collateral_token;
              due_date = loan.due_date;
              ltv_ratio_bps = ltv_ratio_bps;
              plan_id = 0;
              uri = uri;
            })))
      | none ↦ pure tt
    ]

  unfoldable pub burn_loan_nft : ℕ → Action World (Unit {0})
  burn_loan_nft loan_id = do
    found ← gets (λ s. s.nft_token)
    elim found [ some nft_token ↦ invoke x (x.burn nft_token loan_id) | none ↦ pure tt ]
