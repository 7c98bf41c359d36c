-- ===== src/Lending/Refinance/Parts.antt =====
-- contracts/lending-contract/src/lib.rs: the loans that a split makes, with their parts of the debt
-- and of the collateral.
use xource_x.Prelude.{
  refl, zero, suc, ℕ, ◌+◌, ◌*◌, ◌≤◌, ◌<◌, ◌≡◌, subst, inl, inr, Option-cases, true, false, Option,
  some, none, List, [], ◌∷◌, arith,
}
use native.Mathlib.Nat.{le_of_mul-le-mul_right, mul-le-mul_left, mul-le-mul_right}
use xource_x.Prelude.Words.{as_u64, mul_div_u128, mul_div_u128-le, as_u64-mul-le}
use xource_x.Prelude.Lists.{length, sum_of}
use xource_x.Prelude.Outcome.{ok, Outcome-cases, OnSuccess, OnSuccess_elim, OnSome}
use xource_x.Prelude.Dict.{or_default}
use xource_x.AccessControl.{Address}
use xource_x.Lending.Types.{LoanRecord}
use xource_x.Lending.Store.{
  External, Ledger, Store, increment_loan_id, require_initialized, enter_reentrancy_guard,
  exit_reentrancy_guard, transfer, remove_user_loan,
}
use xource_x.Lending.Terms.{
  interest_due, get_open_loan, calculate_outstanding_balance, burn_loan_nft,
}
use xource_x.Lending.Pool.Effects.{KeepsListing}
use xource_x.Lending.Pool.Totals.{SameTotals}
use xource_x.Lending.Refinance.{fee_of, current_rate, forget_loan, close_for_fee, store_loan}
use xource_x.Lending.Refinance.Splitting.{split_collateral, admit_split, store_parts, split_loan}
use xource_x.Lending.Refinance.Effects.{
  KeepsBooks, store_loan_effect, current_rate_pure, is_in_grace_period_pure,
}
use xource_x.Lending.Refinance.Consolidated.{collateral_sum, retain_fee_effect}

-- The principals of the listed loans.
unfoldable pub principals : (ℕ → Option LoanRecord) → List ℕ → List ℕ
principals loans [] = []
principals loans (loan_id ∷ rest) =
    elim (loans loan_id) [ some loan ↦ loan.principal | none ↦ 0 ] ∷ principals loans rest

-- The parts of the collateral.
unfoldable pub collateral_parts : ℕ → ℕ → List ℕ → ℕ
collateral_parts collateral outstanding [] = 0
collateral_parts collateral outstanding (amount ∷ rest) =
    split_collateral collateral outstanding amount + collateral_parts collateral outstanding rest

-- The last id of a list that is not empty.
unfoldable pub last_of : ℕ → List ℕ → ℕ
last_of first [] = first
last_of first (next ∷ rest) = last_of next rest

-- A part of the collateral is at most in proportion to the part of the debt.
split_collateral-le :
    (collateral outstanding amount : ℕ)
    → split_collateral collateral outstanding amount * outstanding ≤ collateral * amount
unfolding split_collateral
split_collateral-le collateral outstanding amount =
    let ratio = mul_div_u128 amount 10000 outstanding in
    let part = as_u64 (mul_div_u128 collateral ratio 10000) in
    let fraction : ratio * outstanding ≤ amount * 10000 =
      mul_div_u128-le amount 10000 outstanding in
    let scaled : part * 10000 ≤ collateral * ratio =
      as_u64-mul-le (mul_div_u128 collateral ratio 10000) 10000 (collateral * ratio)
        (mul_div_u128-le collateral ratio 10000) in
    let share = mul-le-mul_right outstanding scaled in
    let whole = mul-le-mul_left collateral fraction in omega arith

collateral_parts-le :
    (collateral outstanding : ℕ) (amounts : List ℕ)
    → collateral_parts collateral outstanding amounts * outstanding ≤ collateral * sum_of amounts
unfolding collateral_parts sum_of
collateral_parts-le collateral outstanding [] = omega arith
collateral_parts-le collateral outstanding (amount ∷ rest) =
    let here = split_collateral-le collateral outstanding amount in
    let later = collateral_parts-le collateral outstanding rest in omega arith

collateral_parts_none :
    (collateral : ℕ) (amounts : List ℕ) → collateral_parts collateral 0 amounts ≡ 0
unfolding collateral_parts split_collateral mul_div_u128
collateral_parts_none collateral [] = refl
collateral_parts_none collateral (amount ∷ rest) =
    ground (arith, collateral_parts_none collateral rest)

collateral_parts_within :
    (collateral outstanding : ℕ) (amounts : List ℕ)
    → sum_of amounts ≡ outstanding
    → collateral_parts collateral outstanding amounts ≤ collateral
collateral_parts_within collateral zero amounts adds_up =
    omega (arith, collateral_parts_none collateral amounts)
collateral_parts_within collateral (suc n) amounts adds_up =
    le_of_mul-le-mul_right
      (subst (λ m. collateral_parts collateral (suc n) amounts * suc n ≤ collateral * m) adds_up
        (collateral_parts-le collateral (suc n) amounts))
      (omega arith)

module _ (x : External) (l : Ledger) (borrower : Address) (old_loan : LoanRecord)
    (outstanding rate due_date : ℕ) where
  -- The new ids are fresh, each part is stored under its own, and the last one is the borrower's.
  store_parts_effect :
      (amounts : List ℕ) (s : Store x.World)
      → OnSuccess
          (λ r.
            KeepsBooks s r.1
            × (length r.0 ≡ length amounts)
            × (principals r.1.loans_by_id r.0 ≡ amounts)
            × (collateral_sum r.1.loans_by_id r.0
                ≡ collateral_parts old_loan.collateral_amount outstanding amounts)
            × ((j : ℕ) → j < or_default 1 s.next_loan_id → r.1.loans_by_id j ≡ s.loans_by_id j))
          (store_parts x l borrower old_loan outstanding rate due_date amounts s)
  unfolding store_parts increment_loan_id length principals collateral_sum collateral_parts
  store_parts_effect [] s = ground arith
  store_parts_effect (amount ∷ rest) s =
      let n = or_default 1 s.next_loan_id in
      let next : Store x.World = record s { next_loan_id = some (n + 1) } in
      let loan : LoanRecord = record {
        loan_id = n;
        borrower = borrower;
        asset = old_loan.asset;
        principal = amount;
        collateral_amount = split_collateral old_loan.collateral_amount outstanding amount;
        collateral_token = old_loan.collateral_token;
        borrow_time = l.timestamp;
        due_date = due_date;
        interest_rate_bps = rate;
      } in
      elim (Outcome-cases (store_loan x loan next)) [
        | inr fails ↦ ground arith
        | inl ((done, u), stores) ↦
            let stored = OnSuccess_elim _ stores (store_loan_effect x next loan) in
            elim (Outcome-cases
              (store_parts x l borrower old_loan outstanding rate due_date rest u)) [
                | inr fails ↦ ground arith
                | inl ((ids, v), more) ↦
                    let kept = OnSuccess_elim _ more (store_parts_effect rest u) in
                    ground (arith, kept.4 n)
              ]
      ]

module _ (x : External) (l : Ledger) (s : Store x.World) (borrower : Address) where
  admit_split_effect :
      (amounts : List ℕ)
      → OnSuccess
          (λ r.
            (l.authorized borrower ≡ true)
            × (s.access.reentrancy_lock ≡ false)
            × (length amounts ≤ 5)
            × (s.loans borrower ≡ some r.0.0)
            × (r.0.1 ≡ r.0.0.principal + interest_due l r.0.0)
            × (sum_of amounts ≡ r.0.1)
            × (r.1 ≡ record s { access = r.1.access }))
          (admit_split x l borrower amounts s)
  unfolding admit_split require_initialized enter_reentrancy_guard get_open_loan
      calculate_outstanding_balance
  admit_split_effect amounts =
      let locked : Store x.World = record s {
        access = record s.access { reentrancy_lock = true };
      } in
      elim (Option-cases (s.loans borrower)) [
        | inl missing ↦ ground arith
        | inr (loan, found) ↦ ground (arith, is_in_grace_period_pure l locked borrower loan found)
      ]

  close_for_fee_effect :
      (loan : LoanRecord) (fee : ℕ)
      → OnSuccess (λ r. KeepsBooks s r.1) (close_for_fee x l borrower loan fee s)
  unfolding close_for_fee transfer forget_loan remove_user_loan burn_loan_nft
  close_for_fee_effect loan fee = ground arith

module _ (x : External) (l : Ledger) (s s' : Store x.World) where
  -- A split was authorised by the borrower, into at most five parts that sum up to what the open loan
  -- owes. Each part is stored as a loan under its id, and together they have no more of the collateral
  -- than the loan had. No share moves and no pool's borrowings change.
  pub split_loan-Parted :
      (borrower : Address) (amounts ids : List ℕ) (duration : ℕ)
      → split_loan x l borrower amounts duration s ≡ ok (ids, s')
      → (l.authorized borrower ≡ true)
        × (s.access.reentrancy_lock ≡ false)
        × (length amounts ≤ 5)
        × OnSome
            (λ loan.
              (sum_of amounts ≡ loan.principal + interest_due l loan)
              × (collateral_sum s'.loans_by_id ids ≤ loan.collateral_amount))
            (s.loans borrower)
        × (length ids ≡ length amounts)
        × (principals s'.loans_by_id ids ≡ amounts)
        × ((a : Address) → SameTotals (s.pools a) (s'.pools a))
        × (s'.shares ≡ s.shares)
        × (s'.access.reentrancy_lock ≡ false)
        × KeepsListing s s'
  unfolding split_loan require_initialized enter_reentrancy_guard exit_reentrancy_guard
  split_loan-Parted borrower amounts ids duration h =
      elim (Outcome-cases (admit_split x l borrower amounts s)) [
        | inr fails ↦ absurd (ground arith)
        | inl (((same, owed), u), admits) ↦
            elim (Outcome-cases (close_for_fee x l borrower same (fee_of owed) u)) [
              | inr fails ↦ absurd (ground arith)
              | inl ((done, v), closes) ↦ elim (Outcome-cases (current_rate same.asset v)) [
                | inr fails ↦ absurd (ground arith)
                | inl ((rate, w), reads) ↦
                    let stores =
                      store_parts x l borrower same owed rate (l.timestamp + duration) amounts in
                    let admitted =
                      OnSuccess_elim _ admits (admit_split_effect x l s borrower amounts) in
                    let closed =
                      OnSuccess_elim _ closes
                        (close_for_fee_effect x l u borrower same (fee_of owed)) in
                    let read = OnSuccess_elim _ reads (current_rate_pure l v same.asset) in
                    elim (Outcome-cases (stores w)) [
                      | inr fails ↦ absurd (ground arith)
                      | inl ((made, y), parts) ↦
                          let parted = OnSuccess_elim _ parts (
                            store_parts_effect x l borrower same owed rate (l.timestamp + duration)
                              amounts w) in
                          let whole = collateral_parts_within same.collateral_amount owed amounts in
                          let fee = retain_fee_effect x same.asset (fee_of owed) y in ground arith
                    ]
              ]
            ]
      ]
