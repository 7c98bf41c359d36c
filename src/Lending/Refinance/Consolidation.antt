-- ===== src/Lending/Refinance/Consolidation.antt =====
-- contracts/lending-contract/src/lib.rs: consolidating several loans into one.
use xource_x.Prelude.{ℕ, Bool, false, not, ◌||◌, Option, none, some, List, [], ◌∷◌, ltb, ◌==◌}
use xource_x.Prelude.Lists.{length}
use xource_x.Prelude.Outcome.{◌>>=◌, ◌>>◌, pure, gets, raise_if, or_raise, unwrap}
use xource_x.AccessControl.{Address}
use xource_x.Lending.Types.{
  invalid_amount, unauthorized, cannot_refinance, invalid_refinance_terms, loan_not_found,
  loans_consolidated,
}
use xource_x.Lending.Store.{
  External, Ledger, Action, emit, require_auth, add_u64, require_initialized,
  enter_reentrancy_guard, exit_reentrancy_guard, increment_loan_id, transfer, grace_period_end,
}
use xource_x.Lending.Terms.{calculate_outstanding_balance}
use xource_x.Lending.Refinance.{fee_of, current_rate, retain_fee, forget_loan, store_loan}

-- What the loop of `consolidate_loans` has read of the loans so far.
pub record Gathered : Type 0 where
  pub total_outstanding : ℕ
  pub total_collateral : ℕ
  pub collateral_token : Option Address
  pub asset : Option Address

-- The first loan sets the address, the others must have the same.
unfoldable pub differs : Option Address → Address → Bool
differs none a = false
differs (some b) a = not (b == a)

module _ {W : Type 0} where
  -- The first loop of `consolidate_loans`.
  unfoldable pub gather_loans : Ledger → Address → List ℕ → Gathered → Action W (Gathered × List ℕ)
  unfolding grace_period_end calculate_outstanding_balance differs
  gather_loans l borrower [] seen = pure (seen, [])
  gather_loans l borrower (loan_id ∷ rest) seen = do
    found ← gets (λ s. s.loans_by_id loan_id)
    loan ← or_raise found loan_not_found
    raise_if (not (loan.borrower == borrower)) unauthorized
    grace_end ← grace_period_end loan
    raise_if (ltb grace_end l.timestamp) cannot_refinance
    outstanding ← calculate_outstanding_balance l loan
    total_outstanding ← add_u64 seen.total_outstanding outstanding
    total_collateral ← add_u64 seen.total_collateral loan.collateral_amount
    raise_if (differs seen.collateral_token loan.collateral_token) invalid_refinance_terms
    raise_if (differs seen.asset loan.asset) invalid_refinance_terms
    more ← gather_loans l borrower rest (record {
      total_outstanding = total_outstanding;
      total_collateral = total_collateral;
      collateral_token = some loan.collateral_token;
      asset = some loan.asset;
    })
    pure (more.0, loan.loan_id ∷ more.1)

module _ (x : External) where
  open x use {World}

  -- The second loop of `consolidate_loans`.
  unfoldable pub forget_loans : Address → List ℕ → Action World (Unit {0})
  forget_loans borrower [] = pure tt
  forget_loans borrower (loan_id ∷ rest) = do
    forget_loan x borrower loan_id
    forget_loans borrower rest

  -- The new loan of a consolidation.
  unfoldable pub open_consolidated :
      Ledger → Address → Address → ℕ → ℕ → Gathered → Action World (ℕ × ℕ)
  unfolding increment_loan_id current_rate store_loan
  open_consolidated l borrower asset new_principal new_duration_seconds gathered = do
    new_loan_id ← increment_loan_id
    new_due_date ← add_u64 l.timestamp new_duration_seconds
    new_interest_rate_bps ← current_rate asset
    collateral_token ← unwrap gathered.collateral_token
    store_loan x (record {
      loan_id = new_loan_id;
      borrower = borrower;
      asset = asset;
      principal = new_principal;
      collateral_amount = gathered.total_collateral;
      collateral_token = collateral_token;
      borrow_time = l.timestamp;
      due_date = new_due_date;
      interest_rate_bps = new_interest_rate_bps;
    })
    pure (new_loan_id, new_due_date)

  -- `consolidate_loans` after its first loop.
  unfoldable pub consolidate_gathered :
      Ledger → Address → List ℕ → ℕ → Gathered → List ℕ → Action World ℕ
  unfolding transfer fee_of forget_loans open_consolidated retain_fee
  consolidate_gathered l borrower loan_ids new_duration_seconds gathered old_loans = do
    asset ← unwrap gathered.asset
    let fee = fee_of gathered.total_outstanding
    new_principal ← add_u64 gathered.total_outstanding fee
    transfer x asset borrower l.contract_id fee
    forget_loans borrower old_loans
    new_loan ← open_consolidated l borrower asset new_principal new_duration_seconds gathered
    retain_fee asset fee
    emit (
        loans_consolidated loan_ids new_loan.0 borrower asset gathered.total_outstanding
          new_principal fee new_loan.1 l.timestamp)
    pure new_loan.0

  unfoldable pub consolidate_loans : Ledger → Address → List ℕ → ℕ → Action World ℕ
  unfolding require_initialized enter_reentrancy_guard length gather_loans consolidate_gathered
      exit_reentrancy_guard
  consolidate_loans l borrower loan_ids new_duration_seconds = do
    require_initialized
    enter_reentrancy_guard
    require_auth l borrower
    raise_if ((length loan_ids == 0) || ltb 10 (length loan_ids)) invalid_amount
    gathered ← gather_loans l borrower loan_ids (record {
      total_outstanding = 0;
      total_collateral = 0;
      collateral_token = none;
      asset = none;
    })
    new_loan_id ←
        consolidate_gathered l borrower loan_ids new_duration_seconds gathered.0 gathered.1
    exit_reentrancy_guard
    pure new_loan_id
