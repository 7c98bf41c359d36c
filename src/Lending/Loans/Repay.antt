-- ===== src/Lending/Loans/Repay.antt =====
-- The effect of a successful `repay`: each stage's, and the whole call's. Every unit that comes in
-- is booked to the pool once.
use xource_x.Prelude.{
  ℕ, ◌+◌, ◌-◌, ◌*◌, ◌/◌, ◌≤◌, ◌<◌, ◌≡◌, sym, subst, inl, inr, Option-cases, false, none, some,
  arith,
}
use xource_x.Prelude.Words.{as_u64, u64_mod, mul_div_u128, mul_div_u128_lem}
use xource_x.Prelude.Outcome.{ok, >>=-eq-ok}
use xource_x.Prelude.Dict.{update}
use xource_x.AccessControl.{Address}
use xource_x.Lending.Types.{PoolState, LoanRecord}
use xource_x.Lending.Math.{calculate_interest, seconds_in_day}
use xource_x.Lending.Store.{External, Ledger, Store, without_id}
use xource_x.Lending.Pool.Effects.{Admitted, KeepsListing}
use xource_x.Lending.Terms.{interest_due}
use xource_x.Lending.Loans.{admit_repay, collect_repayment, book_repayment, close_loan, repay}
use xource_x.Lending.Loans.Borrow.{lock_set}

-- The protocol's tenth of the interest, and the half of it that goes to the bad-debt reserve.
abbrev pub protocol_share : ℕ → ℕ
protocol_share interest = interest * 1000 / 10000

abbrev pub reserve_share : ℕ → ℕ
reserve_share interest = protocol_share interest * 5000 / 10000

interest-lt : (p r e : ℕ) → calculate_interest p r e < u64_mod
unfolding calculate_interest
interest-lt p r e = ground arith

interest_due-lt : (l : Ledger) (loan : LoanRecord) → interest_due l loan < u64_mod
unfolding interest_due
interest_due-lt l loan =
    interest-lt loan.principal loan.interest_rate_bps (l.timestamp - loan.borrow_time)

-- The casts and the u128 products of the split are exact for a u64.
protocol_share-exact :
    (interest : ℕ)
    → interest < u64_mod
    → as_u64 (mul_div_u128 interest 1000 10000) ≡ protocol_share interest
protocol_share-exact interest h =
    omega (arith, mul_div_u128_lem interest 1000 10000 (omega arith) (omega arith))

reserve_share-exact :
    (interest : ℕ)
    → interest < u64_mod
    → as_u64 (mul_div_u128 (protocol_share interest) 5000 10000) ≡ reserve_share interest
reserve_share-exact interest h =
    omega (arith, mul_div_u128_lem (protocol_share interest) 5000 10000 (omega arith) (omega arith))

module _ (x : External) (l : Ledger) (s t : Store x.World) where
  open x use {World}

  record RepayAdmitted (borrower : Address) (loan : LoanRecord) (late_fee grace_end : ℕ)
      : Type 0 where
    admitted : Admitted s l borrower
    open_loan : s.loans borrower ≡ some loan
    on_time : l.timestamp < grace_end + seconds_in_day → late_fee ≡ 0
    locked : t ≡ lock_set s

  admit_repay-RepayAdmitted :
      (borrower : Address) (loan : LoanRecord) (late_fee grace_end : ℕ)
      → admit_repay x l borrower s ≡ ok ((loan, late_fee, grace_end), t)
      → RepayAdmitted borrower loan late_fee grace_end
  unfolding admit_repay
  admit_repay-RepayAdmitted borrower loan late_fee grace_end h = ground arith

  admit_repay-grace_end :
      (borrower : Address) (loan : LoanRecord) (late_fee grace_end : ℕ) (pool : PoolState)
      → admit_repay x l borrower s ≡ ok ((loan, late_fee, grace_end), t)
      → s.pools loan.asset ≡ some pool
      → grace_end ≡ loan.due_date + pool.grace_period_seconds
  unfolding admit_repay
  admit_repay-grace_end borrower loan late_fee grace_end pool h found = ground arith

  collect_repayment-effect :
      (borrower : Address) (loan : LoanRecord) (late_fee total : ℕ)
      → collect_repayment x l borrower loan late_fee s ≡ ok (total, t)
      → (total ≡ loan.principal + interest_due l loan + late_fee)
        × (t ≡ record s { reserves = t.reserves; world = t.world })
  unfolding collect_repayment
  collect_repayment-effect borrower loan late_fee total h = ground arith

  collect_repayment-transfers :
      (borrower : Address) (loan : LoanRecord) (late_fee total : ℕ)
      → collect_repayment x l borrower loan late_fee s ≡ ok (total, t)
      → (w : World) × (x.transfer loan.asset borrower l.contract_id total s.world ≡ some w)
        × (x.transfer loan.collateral_token l.contract_id borrower loan.collateral_amount w
            ≡ some t.world)
  unfolding collect_repayment
  collect_repayment-transfers borrower loan late_fee total h =
      elim (Option-cases (
        x.transfer loan.asset borrower l.contract_id
          (loan.principal + interest_due l loan + late_fee) s.world)) [
            | inl refused ↦ absurd (ground arith)
            | inr (w, paid) ↦ (w, ground arith, ground arith)
          ]

  book_repayment-effect :
      (loan : LoanRecord) (interest late_fee : ℕ) (pool : PoolState)
      → s.pools loan.asset ≡ some pool
      → as_u64 (mul_div_u128 interest 1000 10000) ≡ protocol_share interest
      → as_u64 (mul_div_u128 (protocol_share interest) 5000 10000) ≡ reserve_share interest
      → book_repayment x loan interest late_fee s ≡ ok (tt, t)
      → (loan.principal ≤ pool.total_borrowed)
        × (t ≡ record s {
          pools =
              update loan.asset
                (some (record pool {
                  total_deposits = pool.total_deposits + (interest - protocol_share interest);
                  total_borrowed = pool.total_borrowed - loan.principal;
                  retained_yield =
                      pool.retained_yield
                      + (protocol_share interest - reserve_share interest + late_fee);
                  bad_debt_reserve = pool.bad_debt_reserve + reserve_share interest;
                }))
                s.pools;
        })
  unfolding book_repayment
  book_repayment-effect loan interest late_fee pool found e₁ e₂ h = ground arith

  close_loan-effect :
      (borrower : Address) (loan : LoanRecord) (late_fee grace_end total paid : ℕ)
      → close_loan x l borrower loan late_fee grace_end total s ≡ ok (paid, t)
      → (paid ≡ total)
        × (t ≡ record s {
          loans = update borrower none s.loans;
          loans_by_id = update loan.loan_id none s.loans_by_id;
          user_loans =
              update borrower (without_id loan.loan_id (s.user_loans borrower)) s.user_loans;
          late_fees_accrued = update loan.loan_id 0 s.late_fees_accrued;
          access = record s.access { reentrancy_lock = false };
          events = t.events;
          world = t.world;
        })
  unfolding close_loan
  close_loan-effect borrower loan late_fee grace_end total paid h = ground arith

module _ (x : External) (l : Ledger) (s s' : Store x.World) where
  open x use {World}

  -- A repayment of `total` that closed `loan`, where `pool` was stored; `received` is the world
  -- once the tokens came in, and `returned` once the collateral went back.
  pub record Repaid (borrower : Address) (total : ℕ) (loan : LoanRecord) (late_fee : ℕ)
      (pool : PoolState) (received returned : World) : Type 0 where
    pub admitted : Admitted s l borrower
    pub open_loan : s.loans borrower ≡ some loan
    pub found : s.pools loan.asset ≡ some pool
    pub total_is : total ≡ loan.principal + interest_due l loan + late_fee
    pub on_time :
        l.timestamp < loan.due_date + pool.grace_period_seconds + seconds_in_day → late_fee ≡ 0
    pub paid_in : x.transfer loan.asset borrower l.contract_id total s.world ≡ some received
    pub collateral_back :
        x.transfer loan.collateral_token l.contract_id borrower loan.collateral_amount received
        ≡ some returned
    pub on_loan : loan.principal ≤ pool.total_borrowed
    pub pools :
        s'.pools
        ≡ update loan.asset
            (some (record pool {
              total_deposits =
                  pool.total_deposits
                  + (interest_due l loan - protocol_share (interest_due l loan));
              total_borrowed = pool.total_borrowed - loan.principal;
              retained_yield =
                  pool.retained_yield
                  + (protocol_share (interest_due l loan)
                      - reserve_share (interest_due l loan)
                      + late_fee);
              bad_debt_reserve = pool.bad_debt_reserve + reserve_share (interest_due l loan);
            }))
            s.pools
    pub loans : s'.loans ≡ update borrower none s.loans
    pub loans_by_id : s'.loans_by_id ≡ update loan.loan_id none s.loans_by_id
    pub user_loans :
        s'.user_loans
        ≡ update borrower (without_id loan.loan_id (s.user_loans borrower)) s.user_loans
    pub shares : s'.shares ≡ s.shares
    pub unlocked : s'.access.reentrancy_lock ≡ false
    pub listing : KeepsListing s s'

  module _ (t u v : Store World) where
    Repaid-stages :
        (borrower : Address) (total paid : ℕ) (loan : LoanRecord) (late_fee grace_end : ℕ)
        (pool : PoolState) (w : World)
        → u.pools loan.asset ≡ some pool
        → x.transfer loan.asset borrower l.contract_id total t.world ≡ some w
        → x.transfer loan.collateral_token l.contract_id borrower loan.collateral_amount w
          ≡ some u.world
        → admit_repay x l borrower s ≡ ok ((loan, late_fee, grace_end), t)
        → collect_repayment x l borrower loan late_fee t ≡ ok (total, u)
        → book_repayment x loan (interest_due l loan) late_fee u ≡ ok (tt, v)
        → close_loan x l borrower loan late_fee grace_end total v ≡ ok (paid, s')
        → (paid ≡ total) × Repaid borrower total loan late_fee pool w u.world
    Repaid-stages borrower total paid loan late_fee grace_end pool w found received back a c b d =
        ground (
          arith,
          admit_repay-RepayAdmitted x l s t borrower loan late_fee grace_end a,
          admit_repay-grace_end x l s t borrower loan late_fee grace_end pool a,
          collect_repayment-effect x l t u borrower loan late_fee total c,
          book_repayment-effect x l u v loan (interest_due l loan) late_fee pool found
              (protocol_share-exact (interest_due l loan) (interest_due-lt l loan))
              (reserve_share-exact (interest_due l loan) (interest_due-lt l loan)) b,
          close_loan-effect x l v s' borrower loan late_fee grace_end total paid d,
        )

book_repayment-found :
    (x : External) (loan : LoanRecord) (interest late_fee : ℕ) (s : Store x.World)
    {t : Store x.World}
    → book_repayment x loan interest late_fee s ≡ ok (tt, t)
    → (pool : PoolState) × (s.pools loan.asset ≡ some pool)
unfolding book_repayment
book_repayment-found x loan interest late_fee s h = elim (Option-cases (s.pools loan.asset)) [
  | inl missing ↦ absurd (ground arith)
  | inr p ↦ p
]

module _ (x : External) (l : Ledger) {s s' : Store x.World} where
  -- A successful repayment was admitted and found the borrower's open loan. It took in principal,
  -- accrued interest and late fee, which is 0 before a full day past the grace period, and then gave
  -- the whole collateral back; the pool's borrowings fell by the principal, nine tenths of the interest (rounded up) went to the deposits,
  -- half of the rest to the bad-debt reserve and what remains, with the fee, to the retained yield.
  -- The loan is gone under both keys, the shares are as they were, and the lock is released.
  pub repay-Repaid :
      (borrower : Address) (paid : ℕ)
      → repay x l borrower s ≡ ok (paid, s')
      → (loan : LoanRecord) × (late_fee : ℕ) × (pool : PoolState) × (received : x.World)
        × (returned : x.World) × Repaid x l s s' borrower paid loan late_fee pool received returned
  unfolding repay
  repay-Repaid borrower paid h =
      let (due, t, admit, h₁) = >>=-eq-ok (admit_repay x l borrower) _ s h in
      let (total, u, collect, h₂) = >>=-eq-ok (collect_repayment x l borrower due.0 due.1) _ t h₁ in
      let (done, v, book, close) =
        >>=-eq-ok (book_repayment x due.0 (interest_due l due.0) due.1) _ u h₂ in
      let (pool, found) = book_repayment-found x due.0 (interest_due l due.0) due.1 u book in
      let (w, received, returned) =
        collect_repayment-transfers x l t u borrower due.0 due.1 total collect in
      let (same, r) =
        Repaid-stages x l s s' t u v borrower total paid due.0 due.1 due.2 pool w found received
          returned admit collect book close in
      (
        due.0,
        due.1,
        pool,
        w,
        u.world,
        subst (λ n. Repaid x l s s' borrower n due.0 due.1 pool w u.world) (sym same) r,
      )
