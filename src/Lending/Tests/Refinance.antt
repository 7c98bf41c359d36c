-- ===== src/Lending/Tests/Refinance.antt =====
-- A loan that is refinanced, consolidated with itself, and split.
use xource_x.Prelude.{ℕ, ◌+◌, ◌≤◌, ◌≡◌, refl, true, false, none, some, [], ◌∷◌, List, ◌==◌}
use xource_x.Prelude.Lists.{length, sum_of}
use xource_x.Prelude.Words.{mul_div_u128}
use xource_x.Prelude.Dict.{lookup, insert}
use xource_x.Prelude.Outcome.{ok, OnSome}
use xource_x.AccessControl.{Address}
use xource_x.Lending.Types.{PoolState, LoanRecord}
use xource_x.Lending.Math.{get_utilization_bps, calculate_dynamic_rate, calculate_interest}
use xource_x.Lending.Store.{Store}
use xource_x.Lending.Terms.{interest_due}
use xource_x.Lending.Pool.Effects.{KeepsListing}
use xource_x.Lending.Pool.Totals.{SameTotals}
use xource_x.Lending.Refinance.{
  RefinanceTerms, fee_of, refinance_loan, admit_refinance, replace_loan, close_for_fee,
  book_refinance, forget_loan, store_loan, retain_fee,
}
use xource_x.Lending.Refinance.Consolidation.{
  consolidate_loans, consolidate_gathered, open_consolidated, gather_loans, forget_loans, differs,
}
use xource_x.Lending.Refinance.Splitting.{split_loan, admit_split, store_parts}
use xource_x.Lending.Refinance.Effects.{Refinanced, refinance_loan-Refinanced}
use xource_x.Lending.Refinance.Consolidated.{
  collateral_sum, outstanding_sum, consolidate_loans-Consolidated,
}
use xource_x.Lending.Refinance.Parts.{principals, split_loan-Parted}
use xource_x.Lending.Tests.Setup.{transfer_on, mock, ledger, pool, store, after}

abbrev loan : LoanRecord
loan = record {
  loan_id = 1;
  borrower = 2;
  asset = 9;
  principal = 1_000;
  collateral_amount = 1_200;
  collateral_token = 8;
  borrow_time = 1_000;
  due_date = 4_600;
  interest_rate_bps = 666;
}

-- User 2 has the loan.
abbrev lent : Store mock.World
lent = record store {
  pools =
      λ a. elim (a == 9) [ true ↦ some (record pool { total_borrowed = 1_000 }) | false ↦ none ];
  loans = λ a. elim (a == 2) [ true ↦ some loan | false ↦ none ];
  loans_by_id = λ i. elim (i == 1) [ true ↦ some loan | false ↦ none ];
  user_loans = λ a. elim (a == 2) [ true ↦ 1 ∷ [] | false ↦ [] ];
  next_loan_id = some 2;
}

abbrev refinanced : Store mock.World
unfolding refinance_loan admit_refinance replace_loan
refinanced = after lent (refinance_loan mock ledger 2 7_200 lent)

loan_refinanced : refinance_loan mock ledger 2 7_200 lent ≡ ok (2, refinanced)
unfolding refinance_loan admit_refinance replace_loan close_for_fee book_refinance forget_loan
    store_loan transfer_on lookup insert mul_div_u128 get_utilization_bps calculate_dynamic_rate
    calculate_interest interest_due
loan_refinanced = refl

refinance_loan-Refinanced_example :
    (l : LoanRecord) × (p : PoolState) × (terms : RefinanceTerms) × Refinanced mock ledger lent
      refinanced 2 7_200 2 l p terms
refinance_loan-Refinanced_example = refinance_loan-Refinanced mock ledger 2 7_200 2 loan_refinanced

-- The one loan, named twice.
abbrev named : List ℕ
named = 1 ∷ 1 ∷ []

abbrev consolidated : Store mock.World
unfolding consolidate_loans gather_loans consolidate_gathered
consolidated = after lent (consolidate_loans mock ledger 2 named 7_200 lent)

loan_consolidated : consolidate_loans mock ledger 2 named 7_200 lent ≡ ok (2, consolidated)
unfolding consolidate_loans gather_loans consolidate_gathered open_consolidated forget_loans
    forget_loan store_loan retain_fee fee_of differs transfer_on lookup insert mul_div_u128
    get_utilization_bps calculate_dynamic_rate calculate_interest interest_due length
loan_consolidated = refl

consolidate_loans-Consolidated_example :
    (ledger.authorized 2 ≡ true)
    × (lent.access.reentrancy_lock ≡ false)
    × (length named ≤ 10)
    × OnSome
        (λ l.
          (l.loan_id ≡ 2)
          × (l.collateral_amount ≡ collateral_sum lent.loans_by_id named)
          × (let owed = outstanding_sum ledger lent.loans_by_id named in
              l.principal ≡ owed + fee_of owed))
        (consolidated.loans 2)
    × ((a : Address) → SameTotals (lent.pools a) (consolidated.pools a))
    × (consolidated.shares ≡ lent.shares)
    × (consolidated.access.reentrancy_lock ≡ false)
    × KeepsListing lent consolidated
consolidate_loans-Consolidated_example =
    consolidate_loans-Consolidated mock ledger lent consolidated 2 named 7_200 2 loan_consolidated

abbrev amounts : List ℕ
amounts = 400 ∷ 600 ∷ []

abbrev parted : Store mock.World
unfolding split_loan admit_split close_for_fee store_parts
parted = after lent (split_loan mock ledger 2 amounts 7_200 lent)

loan_split : split_loan mock ledger 2 amounts 7_200 lent ≡ ok (2 ∷ 3 ∷ [], parted)
unfolding split_loan admit_split close_for_fee store_parts forget_loan store_loan retain_fee
    transfer_on lookup insert mul_div_u128 get_utilization_bps calculate_dynamic_rate
    calculate_interest interest_due length sum_of fee_of
loan_split = refl

split_loan-Parted_example :
    (ledger.authorized 2 ≡ true)
    × (lent.access.reentrancy_lock ≡ false)
    × (length amounts ≤ 5)
    × OnSome
        (λ l.
          (sum_of amounts ≡ l.principal + interest_due ledger l)
          × (collateral_sum parted.loans_by_id (2 ∷ 3 ∷ []) ≤ l.collateral_amount))
        (lent.loans 2)
    × (length {A = ℕ} (2 ∷ 3 ∷ []) ≡ length amounts)
    × (principals parted.loans_by_id (2 ∷ 3 ∷ []) ≡ amounts)
    × ((a : Address) → SameTotals (lent.pools a) (parted.pools a))
    × (parted.shares ≡ lent.shares)
    × (parted.access.reentrancy_lock ≡ false)
    × KeepsListing lent parted
split_loan-Parted_example =
    split_loan-Parted mock ledger lent parted 2 amounts (2 ∷ 3 ∷ []) 7_200 loan_split
