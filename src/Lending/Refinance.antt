-- ===== src/Lending/Refinance.antt =====
-- contracts/lending-contract/src/lib.rs: refinancing a loan; the loans' consolidation and splitting
-- stand in the children.
pub mod Effects
pub mod Consolidation
pub mod Splitting
pub mod Consolidated
pub mod Parts
use xource_x.Prelude.{
  ℕ, ◌+◌, ◌-◌, ◌/◌, Bool, false, not, ◌||◌, Option, none, some, List, [], ◌∷◌, ltb, ◌==◌,
  if◌then◌else◌,
}
use xource_x.Prelude.Words.{u64_mod, as_u64, checked_add_u64, checked_mul_u128, mul_div_u128}
use xource_x.Prelude.Lists.{length, sum_of}
use xource_x.Prelude.Outcome.{◌>>=◌, ◌>>◌, pure, gets, modify, panic_if, raise_if, or_raise, unwrap}
use xource_x.Prelude.Dict.{update}
use xource_x.AccessControl.{Address}
use xource_x.Lending.Types.{
  LoanRecord, invalid_amount, unauthorized, cannot_refinance, invalid_refinance_terms,
  loan_not_found, invalid_split_amounts, utilization_cap_exceeded, loan_refinanced,
  loans_consolidated, loan_split,
}
use xource_x.Lending.Math.{get_utilization_bps}
use xource_x.Lending.Store.{
  External, Ledger, Action, emit, require_auth, add_u64, require_initialized,
  enter_reentrancy_guard, exit_reentrancy_guard, get_pool, set_pool, increment_loan_id,
  add_user_loan, remove_user_loan, transfer, grace_period_end,
}
use xource_x.Lending.Terms.{
  rate_at, get_open_loan, calculate_outstanding_balance, is_in_grace_period, mint_loan_nft,
  burn_loan_nft,
}

abbrev pub refinancing_fee_bps : ℕ
refinancing_fee_bps = 50

pub record RefinanceTerms : Type 0 where
  pub outstanding_balance : ℕ
  pub new_principal : ℕ
  pub refinancing_fee : ℕ
  pub total_required : ℕ
  pub new_interest_rate_bps : ℕ
  pub new_duration_seconds : ℕ
  pub new_due_date : ℕ

-- The fee of a consolidation and of a split.
unfoldable pub fee_of : ℕ → ℕ
fee_of outstanding = as_u64 (mul_div_u128 outstanding refinancing_fee_bps 10000)

module _ {W : Type 0} where
  -- The rate of a new loan of the asset.
  unfoldable pub current_rate : Address → Action W ℕ
  unfolding get_pool rate_at
  current_rate asset = do
    pool ← get_pool asset
    rate_at pool (get_utilization_bps pool.total_borrowed pool.total_deposits)

  unfoldable pub get_refinance_terms : Ledger → Address → ℕ → Action W RefinanceTerms
  unfolding require_initialized get_open_loan calculate_outstanding_balance current_rate
  get_refinance_terms l borrower new_duration_seconds = do
    require_initialized
    loan ← get_open_loan borrower
    outstanding_balance ← calculate_outstanding_balance l loan
    scaled ←
        or_raise (checked_mul_u128 outstanding_balance refinancing_fee_bps) invalid_refinance_terms
    let refinancing_fee = scaled / 10000
    raise_if (ltb (u64_mod - 1) refinancing_fee) invalid_refinance_terms
    let new_principal = outstanding_balance + refinancing_fee
    raise_if (ltb (u64_mod - 1) new_principal) invalid_refinance_terms
    new_due_date ← add_u64 l.timestamp new_duration_seconds
    new_interest_rate_bps ← current_rate loan.asset
    pure (record {
      outstanding_balance = outstanding_balance;
      new_principal = new_principal;
      refinancing_fee = refinancing_fee;
      total_required = new_principal;
      new_interest_rate_bps = new_interest_rate_bps;
      new_duration_seconds = new_duration_seconds;
      new_due_date = new_due_date;
    })

  -- The pool's books of a refinancing: the fee is retained, and the borrowings follow the principal,
  -- a raise within the utilization cap.
  unfoldable pub book_refinance : LoanRecord → RefinanceTerms → Action W (Unit {0})
  unfolding get_pool set_pool
  book_refinance old_loan terms = do
    pool ← get_pool old_loan.asset
    retained_yield ←
        or_raise (checked_add_u64 pool.retained_yield terms.refinancing_fee) invalid_refinance_terms
    let added = terms.new_principal - old_loan.principal
    let removed = old_loan.principal - terms.new_principal
    raised ← or_raise (checked_add_u64 pool.total_borrowed added) invalid_refinance_terms
    raise_if
        (if ltb 0 added
          then ltb pool.utilization_cap_bps (get_utilization_bps raised pool.total_deposits)
          else false)
        utilization_cap_exceeded
    raise_if (ltb raised removed) invalid_refinance_terms
    set_pool old_loan.asset
        (record pool { retained_yield = retained_yield; total_borrowed = raised - removed })

  -- `pool.retained_yield += fee`
  unfoldable pub retain_fee : Address → ℕ → Action W (Unit {0})
  unfolding get_pool set_pool
  retain_fee asset fee = do
    pool ← get_pool asset
    retained_yield ← add_u64 pool.retained_yield fee
    set_pool asset (record pool { retained_yield = retained_yield })

module _ (x : External) where
  open x use {World}

  -- The loan leaves the storage, and its NFT is burned.
  unfoldable pub forget_loan : Address → ℕ → Action World (Unit {0})
  unfolding remove_user_loan burn_loan_nft
  forget_loan borrower loan_id = do
    modify (λ s. record s {
      loans = update borrower none s.loans;
      loans_by_id = update loan_id none s.loans_by_id;
    })
    remove_user_loan borrower loan_id
    burn_loan_nft x loan_id

  -- A new loan under both of its keys, with its NFT.
  unfoldable pub store_loan : LoanRecord → Action World (Unit {0})
  unfolding add_user_loan mint_loan_nft
  store_loan loan = do
    modify (λ s. record s {
      loans = update loan.borrower (some loan) s.loans;
      loans_by_id = update loan.loan_id (some loan) s.loans_by_id;
    })
    add_user_loan loan.borrower loan.loan_id
    mint_loan_nft x loan

  -- `refinance_loan` up to the terms, which it computes before it writes.
  unfoldable pub admit_refinance : Ledger → Address → ℕ → Action World (LoanRecord × RefinanceTerms)
  unfolding require_initialized enter_reentrancy_guard get_open_loan is_in_grace_period
      get_refinance_terms
  admit_refinance l borrower new_duration_seconds = do
    require_initialized
    enter_reentrancy_guard
    require_auth l borrower
    old_loan ← get_open_loan borrower
    in_grace ← is_in_grace_period l borrower
    raise_if (not in_grace) cannot_refinance
    terms ← get_refinance_terms l borrower new_duration_seconds
    pure (old_loan, terms)

  -- The borrower pays the fee, and the loan is forgotten.
  unfoldable pub close_for_fee : Ledger → Address → LoanRecord → ℕ → Action World (Unit {0})
  unfolding transfer forget_loan
  close_for_fee l borrower old_loan fee = do
    transfer x old_loan.asset borrower l.contract_id fee
    forget_loan borrower old_loan.loan_id

  -- The borrower pays the fee, and the new loan takes the old one's place.
  unfoldable pub replace_loan : Ledger → Address → LoanRecord → RefinanceTerms → Action World ℕ
  unfolding close_for_fee increment_loan_id store_loan
  replace_loan l borrower old_loan terms = do
    close_for_fee l borrower old_loan terms.refinancing_fee
    new_loan_id ← increment_loan_id
    store_loan (record {
      loan_id = new_loan_id;
      borrower = borrower;
      asset = old_loan.asset;
      principal = terms.new_principal;
      collateral_amount = old_loan.collateral_amount;
      collateral_token = old_loan.collateral_token;
      borrow_time = l.timestamp;
      due_date = terms.new_due_date;
      interest_rate_bps = terms.new_interest_rate_bps;
    })
    pure new_loan_id

  unfoldable pub refinance_loan : Ledger → Address → ℕ → Action World ℕ
  unfolding admit_refinance replace_loan book_refinance exit_reentrancy_guard
  refinance_loan l borrower new_duration_seconds = do
    due ← admit_refinance l borrower new_duration_seconds
    new_loan_id ← replace_loan l borrower due.0 due.1
    book_refinance due.0 due.1
    emit (
        loan_refinanced due.0.loan_id new_loan_id borrower due.0.asset due.0.principal
          due.1.new_principal due.1.refinancing_fee due.0.interest_rate_bps
          due.1.new_interest_rate_bps due.0.due_date due.1.new_due_date l.timestamp)
    exit_reentrancy_guard
    pure new_loan_id
