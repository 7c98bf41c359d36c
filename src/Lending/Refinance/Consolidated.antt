-- ===== src/Lending/Refinance/Consolidated.antt =====
-- contracts/lending-contract/src/lib.rs: what a consolidation makes of the loans that it names.
use xource_x.Prelude.{
  ℕ, ◌+◌, ◌≤◌, ◌≡◌, inl, inr, Option-cases, true, false, Option, some, none, List, [], ◌∷◌, arith,
}
use xource_x.Prelude.Lists.{length}
use xource_x.Prelude.Outcome.{ok, Outcome-cases, OnSuccess, OnSuccess_elim, OnSome}
use xource_x.AccessControl.{Address}
use xource_x.Lending.Types.{LoanRecord}
use xource_x.Lending.Store.{
  External, Ledger, Store, require_initialized, enter_reentrancy_guard, exit_reentrancy_guard,
  get_pool, set_pool, increment_loan_id, add_user_loan, transfer, grace_period_end,
}
use xource_x.Lending.Terms.{rate_at, mint_loan_nft, interest_due, calculate_outstanding_balance}
use xource_x.Lending.Pool.Effects.{KeepsListing}
use xource_x.Lending.Pool.Totals.{SameTotals}
use xource_x.Lending.Refinance.{fee_of, current_rate, forget_loan, store_loan, retain_fee}
use xource_x.Lending.Refinance.Consolidation.{
  Gathered, gather_loans, forget_loans, open_consolidated, consolidate_gathered, consolidate_loans,
}
use xource_x.Lending.Refinance.Effects.{KeepsBooks, forget_loan_effect}

-- The collateral of the listed loans and what they owe, a loan counted as often as it is listed.
unfoldable pub collateral_sum : (ℕ → Option LoanRecord) → List ℕ → ℕ
collateral_sum loans [] = 0
collateral_sum loans (loan_id ∷ rest) =
    elim (loans loan_id) [ some loan ↦ loan.collateral_amount | none ↦ 0 ]
    + collateral_sum loans rest

unfoldable pub outstanding_sum : Ledger → (ℕ → Option LoanRecord) → List ℕ → ℕ
outstanding_sum l loans [] = 0
outstanding_sum l loans (loan_id ∷ rest) =
    elim (loans loan_id) [ some loan ↦ loan.principal + interest_due l loan | none ↦ 0 ]
    + outstanding_sum l loans rest

module _ {W : Type 0} (l : Ledger) (s : Store W) (borrower : Address) where
  gather_loans_effect :
      (ids : List ℕ) (seen : Gathered)
      → OnSuccess
          (λ r.
            (r.1 ≡ s)
            × (r.0.0.total_collateral ≡ seen.total_collateral + collateral_sum s.loans_by_id ids)
            × (r.0.0.total_outstanding
                ≡ seen.total_outstanding + outstanding_sum l s.loans_by_id ids))
          (gather_loans l borrower ids seen s)
  unfolding gather_loans collateral_sum outstanding_sum grace_period_end get_pool
      calculate_outstanding_balance
  gather_loans_effect [] seen = ground arith
  gather_loans_effect (loan_id ∷ rest) seen = elim (Option-cases (s.loans_by_id loan_id)) [
    | inl missing ↦ ground arith
    | inr (loan, found) ↦ ground (
      arith,
      gather_loans_effect rest (record {
        total_outstanding = seen.total_outstanding + (loan.principal + interest_due l loan);
        total_collateral = seen.total_collateral + loan.collateral_amount;
        collateral_token = some loan.collateral_token;
        asset = some loan.asset;
      }),
    )
  ]

module _ (x : External) where
  forget_loans_effect :
      (borrower : Address) (ids : List ℕ) (s : Store x.World)
      → OnSuccess (λ r. KeepsBooks s r.1) (forget_loans x borrower ids s)
  unfolding forget_loans
  forget_loans_effect borrower [] s = ground arith
  forget_loans_effect borrower (loan_id ∷ rest) s =
      elim (Outcome-cases (forget_loan x borrower loan_id s)) [
        | inr fails ↦ ground arith
        | inl ((done, u), forgets) ↦
            let kept = OnSuccess_elim _ forgets (forget_loan_effect x s borrower loan_id) in
            ground (arith, forget_loans_effect borrower rest u)
      ]

  pub retain_fee_effect :
      (asset : Address) (fee : ℕ) (s : Store x.World)
      → OnSuccess
          (λ r.
            ((a : Address) → SameTotals (s.pools a) (r.1.pools a))
            × (r.1.loans ≡ s.loans)
            × (r.1.loans_by_id ≡ s.loans_by_id)
            × (r.1.shares ≡ s.shares)
            × (r.1.access ≡ s.access)
            × KeepsListing s r.1)
          (retain_fee asset fee s)
  unfolding retain_fee get_pool set_pool
  retain_fee_effect asset fee s = ground arith

  open_consolidated_effect :
      (l : Ledger) (borrower asset : Address) (principal due : ℕ) (g : Gathered) (s : Store x.World)
      → OnSuccess
          (λ r.
            KeepsBooks s r.1
            × OnSome
                (λ loan.
                  (loan.loan_id ≡ r.0.0)
                  × (loan.collateral_amount ≡ g.total_collateral)
                  × (loan.principal ≡ principal))
                (r.1.loans borrower))
          (open_consolidated x l borrower asset principal due g s)
  unfolding open_consolidated increment_loan_id current_rate get_pool rate_at store_loan
      add_user_loan mint_loan_nft
  open_consolidated_effect l borrower asset principal due g s = ground arith

  -- The part of a consolidation that follows the reading of the loans.
  consolidate_gathered_effect :
      (l : Ledger) (borrower : Address) (ids olds : List ℕ) (duration : ℕ) (g : Gathered)
      (s : Store x.World)
      → OnSuccess
          (λ r.
            OnSome
              (λ loan.
                (loan.loan_id ≡ r.0)
                × (loan.collateral_amount ≡ g.total_collateral)
                × (loan.principal ≡ g.total_outstanding + fee_of g.total_outstanding))
              (r.1.loans borrower)
            × ((a : Address) → SameTotals (s.pools a) (r.1.pools a))
            × (r.1.shares ≡ s.shares)
            × (r.1.access ≡ s.access)
            × KeepsListing s r.1)
          (consolidate_gathered x l borrower ids duration g olds s)
  unfolding consolidate_gathered transfer
  consolidate_gathered_effect l borrower ids olds duration g s =
      let fee = fee_of g.total_outstanding in
      let principal = g.total_outstanding + fee in
      elim (Option-cases g.asset) [
        | inl none_read ↦ ground arith
        | inr (asset, read) ↦
            elim (Option-cases (x.transfer asset borrower l.contract_id fee s.world)) [
              | inl refused ↦ ground arith
              | inr (w, moved) ↦
                  let paid : Store x.World = record s { world = w } in
                  elim (Outcome-cases (forget_loans x borrower olds paid)) [
                    | inr fails ↦ ground arith
                    | inl ((done, u), forgets) ↦
                        let forgot =
                          OnSuccess_elim _ forgets (forget_loans_effect borrower olds paid) in
                        elim (Outcome-cases
                          (open_consolidated x l borrower asset principal duration g u)) [
                            | inr fails ↦ ground arith
                            | inl ((new_loan, v), opens) ↦
                                let opened = OnSuccess_elim _ opens (
                                  open_consolidated_effect l borrower asset principal duration g
                                    u) in
                                ground (arith, retain_fee_effect asset fee v)
                          ]
                  ]
            ]
      ]

module _ (x : External) (l : Ledger) (s s' : Store x.World) where
  -- A consolidation of at most ten loans, authorised by the borrower, leaves the borrower's open loan
  -- with the collateral of all the named loans and with what they owe and the fee as its principal,
  -- where a loan that is named twice counts twice. What the pools have lent is left as it was,
  -- although the principal has grown by the interest and the fee. No share moves.
  pub consolidate_loans-Consolidated :
      (borrower : Address) (loan_ids : List ℕ) (duration new_id : ℕ)
      → consolidate_loans x l borrower loan_ids duration s ≡ ok (new_id, s')
      → (l.authorized borrower ≡ true)
        × (s.access.reentrancy_lock ≡ false)
        × (length loan_ids ≤ 10)
        × OnSome
            (λ loan.
              (loan.loan_id ≡ new_id)
              × (loan.collateral_amount ≡ collateral_sum s.loans_by_id loan_ids)
              × (let owed = outstanding_sum l s.loans_by_id loan_ids in
                  loan.principal ≡ owed + fee_of owed))
            (s'.loans borrower)
        × ((a : Address) → SameTotals (s.pools a) (s'.pools a))
        × (s'.shares ≡ s.shares)
        × (s'.access.reentrancy_lock ≡ false)
        × KeepsListing s s'
  unfolding consolidate_loans require_initialized enter_reentrancy_guard exit_reentrancy_guard
  consolidate_loans-Consolidated borrower loan_ids duration new_id h =
      let locked : Store x.World = record s {
        access = record s.access { reentrancy_lock = true };
      } in
      let none_read : Gathered = record {
        total_outstanding = 0;
        total_collateral = 0;
        collateral_token = none;
        asset = none;
      } in
      elim (Outcome-cases (gather_loans l borrower loan_ids none_read locked)) [
        | inr fails ↦ absurd (ground arith)
        | inl (((g, olds), u), gathers) ↦
            let gathered =
              OnSuccess_elim _ gathers (gather_loans_effect l locked borrower loan_ids none_read) in
            let made = consolidate_gathered_effect x l borrower loan_ids olds duration g u in
            ground arith
      ]
