-- ===== src/Lending/ReserveFund/Effects.antt =====
-- contracts/lending-contract/src/lib.rs: what accruals and write-offs do to a pool's books.
use xource_x.Prelude.{
  ℕ, ◌+◌, ◌-◌, ◌*◌, ◌≤◌, ◌<◌, ◌≡◌, inl, inr, Option-cases, true, some, none, arith, is_some,
}
use native.Mathlib.Nat.{le_trans, mul-le-mul_left, le_of_mul-le-mul_right}
use xource_x.Prelude.Words.{u64_mod, as_u64, mul_div_u128, mul_div_u128-le, as_u64-mul-le}
use xource_x.Prelude.Outcome.{ok, OnSuccess, Returns}
use xource_x.Prelude.Dict.{update}
use xource_x.AccessControl.{Address, Role, holds, require_role}
use xource_x.Lending.Types.{PoolState, LoanRecord}
use xource_x.Lending.Store.{
  External, Ledger, Store, require_initialized, require_admin, ensure_not_paused, get_pool,
  set_pool, remove_user_loan, grace_period_end,
}
use xource_x.Lending.Terms.{interest_due, get_open_loan, calculate_late_fee}
use xource_x.Lending.Loans.{get_repayment_amount, get_total_due_with_late_fees}
use xource_x.Lending.Refinance.Effects.{is_in_grace_period_pure}
use xource_x.Lending.ReserveFund.{
  calculate_interest_split, accrue_interest_with_reserve, write_off, liquidate_bad_debt,
}

share-le : (total factor : ℕ) → factor ≤ 10000 → as_u64 (mul_div_u128 total factor 10000) ≤ total
share-le total factor h =
    le_of_mul-le-mul_right {k = 10000}
      (le_trans
        (as_u64-mul-le (mul_div_u128 total factor 10000) 10000 (total * factor)
          (mul_div_u128-le total factor 10000))
        (mul-le-mul_left total h))
      (omega arith)

-- Up to a factor of 100%, the depositors' and the protocol's part make up the interest.
pub calculate_interest_split_whole :
    (total factor : ℕ)
    → factor ≤ 10000
    → (let split = calculate_interest_split total factor in split.0 + split.1 ≡ total)
unfolding calculate_interest_split
calculate_interest_split_whole total factor h = ground (arith, share-le total factor h)

-- On an initialized contract the two ways to ask what a borrower owes agree, their failures included.
pub get_total_due_with_late_fees-get_repayment_amount :
    (x : External) (l : Ledger) (s : Store x.World) (borrower : Address)
    → is_some s.admin ≡ true
    → get_total_due_with_late_fees x l borrower s ≡ get_repayment_amount x l borrower s
unfolding get_total_due_with_late_fees get_repayment_amount require_initialized get_open_loan
get_total_due_with_late_fees-get_repayment_amount x l s borrower set = ground arith

-- What an asset's pool retains and reserves.
abbrev pub aside_of : {W : Type 0} → Store W → Address → ℕ
aside_of s asset = elim (s.pools asset) [
  | some pool ↦ pool.retained_yield + pool.bad_debt_reserve
  | none ↦ 0
]

module _ {W : Type 0} (l : Ledger) (s t : Store W) where
  -- While the pool's books have room for twice the interest within a u64, and its reserve factor is at
  -- most 100%, an accrual, by anyone, sets aside the whole interest of the loan since it was taken. A
  -- second accrual at the same time succeeds and sets the same interest aside once more; the stored
  -- loans are as they were.
  pub accrue_interest_with_reserve_twice :
      (loan_id : ℕ) (loan : LoanRecord) (pool : PoolState)
      → s.loans_by_id loan_id ≡ some loan
      → s.pools loan.asset ≡ some pool
      → pool.reserve_factor_bps ≤ 10000
      → pool.retained_yield
          + pool.bad_debt_reserve
          + pool.total_protocol_revenue
          + interest_due l loan
          + interest_due l loan
        < u64_mod
      → accrue_interest_with_reserve l loan_id s ≡ ok (tt, t)
      → Returns
          (λ done u.
            (aside_of t loan.asset ≡ aside_of s loan.asset + interest_due l loan)
            × (aside_of u loan.asset ≡ aside_of t loan.asset + interest_due l loan)
            × (u.loans_by_id ≡ s.loans_by_id))
          (accrue_interest_with_reserve l loan_id t)
  unfolding accrue_interest_with_reserve get_pool set_pool
  accrue_interest_with_reserve_twice loan_id loan pool held found factor fits h =
      let whole =
        calculate_interest_split_whole (interest_due l loan) pool.reserve_factor_bps factor in
      ground arith

module _ (x : External) (l : Ledger) (s s' : Store x.World) where
  -- A write-off of `shortfall`.
  pub record WrittenOff (admin borrower : Address) (shortfall : ℕ) (loan : LoanRecord)
      (pool : PoolState) : Type 0 where
    pub authorized : l.authorized admin ≡ true
    pub allowed : holds Role.admin (s.access.roles admin) ≡ true
    pub open_loan : s.loans borrower ≡ some loan
    pub found : s.pools loan.asset ≡ some pool
    pub overdue : loan.due_date + pool.grace_period_seconds < l.timestamp
    pub owed :
        (total : ℕ) × (get_repayment_amount x l borrower s ≡ ok (total, s))
        × (shortfall ≡ total - loan.collateral_amount)
    pub reserved : shortfall ≤ pool.bad_debt_reserve
    pub pools :
        s'.pools
        ≡ update loan.asset
            (some (record pool {
              bad_debt_reserve = pool.bad_debt_reserve - shortfall;
              total_borrowed = pool.total_borrowed - loan.principal;
            }))
            s.pools
    pub closed : s'.loans ≡ update borrower none s.loans
    pub closed_by_id : s'.loans_by_id ≡ update loan.loan_id none s.loans_by_id
    pub shares : s'.shares ≡ s.shares
    pub access : s'.access ≡ s.access
    pub admin_kept : s'.admin ≡ s.admin
    pub assets_kept : s'.supported_assets ≡ s.supported_assets
    pub world : s'.world ≡ s.world

module _ (x : External) (l : Ledger) (s : Store x.World) where
  get_repayment_amount_pure :
      (borrower : Address) → OnSuccess (λ r. r.1 ≡ s) (get_repayment_amount x l borrower s)
  unfolding get_repayment_amount get_open_loan calculate_late_fee require_initialized get_pool
      grace_period_end
  get_repayment_amount_pure borrower = ground arith

module _ (x : External) (l : Ledger) (s s' : Store x.World) where
  -- A write-off is an admin's, of a loan past its grace period; the shortfall against the collateral
  -- came out of the bad-debt reserve, which covered it. The loan is closed and its principal leaves
  -- the borrowings. No token moves: the collateral stays where it is.
  pub liquidate_bad_debt-WrittenOff :
      (admin borrower : Address) (shortfall : ℕ)
      → liquidate_bad_debt x l admin borrower s ≡ ok (shortfall, s')
      → (loan : LoanRecord) × (pool : PoolState) × WrittenOff x l s s' admin borrower shortfall loan
          pool
  unfolding liquidate_bad_debt require_initialized require_admin require_role ensure_not_paused
      get_open_loan write_off get_pool set_pool remove_user_loan
  liquidate_bad_debt-WrittenOff admin borrower shortfall h =
      let repayment = get_repayment_amount_pure x l s borrower in
      elim (Option-cases (s.loans borrower)) [
        | inl missing ↦ absurd (ground arith)
        | inr (loan, found) ↦
            let grace = is_in_grace_period_pure l s borrower loan found in
            elim (Option-cases (s.pools loan.asset)) [
              | inl missing ↦ absurd (ground arith)
              | inr (pool, stored) ↦ (loan, pool, ground arith)
            ]
      ]
