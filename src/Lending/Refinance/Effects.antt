-- ===== src/Lending/Refinance/Effects.antt =====
-- contracts/lending-contract/src/lib.rs: the effect of a refinancing on the loan and on the pool.
use xource_x.Prelude.{
  ℕ, ◌+◌, ◌-◌, ◌/◌, ◌*◌, ◌≤◌, ◌<◌, ◌≡◌, leb, inl, inr, Option-cases, true, false, some, none, arith,
}
use xource_x.Prelude.Outcome.{ok, Outcome-cases, OnSuccess, OnSuccess_elim}
use xource_x.Prelude.Dict.{update, or_default}
use xource_x.AccessControl.{Address}
use xource_x.Lending.Types.{PoolState, LoanRecord}
use xource_x.Lending.Math.{get_utilization_bps}
use xource_x.Lending.Store.{
  External, Ledger, Store, require_initialized, enter_reentrancy_guard, exit_reentrancy_guard,
  get_pool, set_pool, increment_loan_id, add_user_loan, remove_user_loan, transfer,
  grace_period_end,
}
use xource_x.Lending.Terms.{
  interest_due, rate_at, get_open_loan, calculate_outstanding_balance, is_in_grace_period,
  mint_loan_nft, burn_loan_nft,
}
use xource_x.Lending.Pool.Effects.{KeepsListing}
use xource_x.Lending.Refinance.{
  refinancing_fee_bps, RefinanceTerms, current_rate, get_refinance_terms, book_refinance,
  forget_loan, store_loan, admit_refinance, close_for_fee, replace_loan, refinance_loan,
}

-- The grace period of an asset's pool.
abbrev pub grace_of : {W : Type 0} → Store W → Address → ℕ
grace_of s asset = elim (s.pools asset) [ some pool ↦ pool.grace_period_seconds | none ↦ 0 ]

module _ {W : Type 0} (l : Ledger) (s : Store W) where
  pub is_in_grace_period_pure :
      (borrower : Address) (loan : LoanRecord)
      → s.loans borrower ≡ some loan
      → OnSuccess
          (λ r. (r.1 ≡ s) × (r.0 ≡ leb l.timestamp (loan.due_date + grace_of s loan.asset)))
          (is_in_grace_period l borrower s)
  unfolding is_in_grace_period require_initialized get_open_loan grace_period_end get_pool
  is_in_grace_period_pure borrower loan found = ground arith

  pub current_rate_pure : (asset : Address) → OnSuccess (λ r. r.1 ≡ s) (current_rate asset s)
  unfolding current_rate get_pool rate_at
  current_rate_pure asset = ground arith

  -- What the terms are: the principal with its interest, the fee on top, and nothing stored.
  get_refinance_terms_pure :
      (borrower : Address) (duration : ℕ) (loan : LoanRecord)
      → s.loans borrower ≡ some loan
      → OnSuccess
          (λ r.
            (r.1 ≡ s)
            × (r.0.outstanding_balance ≡ loan.principal + interest_due l loan)
            × (r.0.refinancing_fee ≡ r.0.outstanding_balance * refinancing_fee_bps / 10000)
            × (r.0.new_principal ≡ r.0.outstanding_balance + r.0.refinancing_fee)
            × (r.0.new_due_date ≡ l.timestamp + duration))
          (get_refinance_terms l borrower duration s)
  unfolding get_refinance_terms require_initialized get_open_loan calculate_outstanding_balance
  get_refinance_terms_pure borrower duration loan found =
      ground (arith, current_rate_pure loan.asset)

-- A step on the loans leaves the pools, the shares and the rights as they were.
pub record KeepsBooks {W : Type 0} (s s' : Store W) : Type 0 where
  pub pools : s'.pools ≡ s.pools
  pub shares : s'.shares ≡ s.shares
  pub access : s'.access ≡ s.access
  pub admin : s'.admin ≡ s.admin
  pub supported_assets : s'.supported_assets ≡ s.supported_assets

module _ (x : External) (l : Ledger) (s s' : Store x.World) where
  -- A refinancing of `loan` on these terms.
  pub record Refinanced (borrower : Address) (duration new_id : ℕ) (loan : LoanRecord)
      (pool : PoolState) (terms : RefinanceTerms) : Type 0 where
    pub authorized : l.authorized borrower ≡ true
    pub not_reentered : s.access.reentrancy_lock ≡ false
    pub open_loan : s.loans borrower ≡ some loan
    pub found : s.pools loan.asset ≡ some pool
    pub not_overdue : l.timestamp ≤ loan.due_date + pool.grace_period_seconds
    pub outstanding : terms.outstanding_balance ≡ loan.principal + interest_due l loan
    pub fee : terms.refinancing_fee ≡ terms.outstanding_balance * refinancing_fee_bps / 10000
    pub principal : terms.new_principal ≡ terms.outstanding_balance + terms.refinancing_fee
    pub fee_paid :
        (w : x.World) × (x.transfer loan.asset borrower l.contract_id terms.refinancing_fee s.world
          ≡ some w)
    pub id : new_id ≡ or_default 1 s.next_loan_id
    pub pools :
        s'.pools
        ≡ update loan.asset
            (some (record pool {
              retained_yield = pool.retained_yield + terms.refinancing_fee;
              total_borrowed = pool.total_borrowed + (terms.new_principal - loan.principal);
            }))
            s.pools
    pub within_cap :
        loan.principal < terms.new_principal
        → get_utilization_bps
            (pool.total_borrowed + (terms.new_principal - loan.principal))
            pool.total_deposits
          ≤ pool.utilization_cap_bps
    pub new_loan :
        s'.loans borrower
        ≡ some (record loan {
          loan_id = new_id;
          borrower = borrower;
          principal = terms.new_principal;
          borrow_time = l.timestamp;
          due_date = l.timestamp + duration;
          interest_rate_bps = terms.new_interest_rate_bps;
        })
    pub shares : s'.shares ≡ s.shares
    pub unlocked : s'.access.reentrancy_lock ≡ false
    pub listing : KeepsListing s s'

module _ (x : External) (s : Store x.World) where
  pub forget_loan_effect :
      (borrower : Address) (loan_id : ℕ)
      → OnSuccess
          (λ r.
            KeepsBooks s r.1
            × (r.1.next_loan_id ≡ s.next_loan_id)
            × (r.1.loans ≡ update borrower none s.loans)
            × (r.1.loans_by_id ≡ update loan_id none s.loans_by_id))
          (forget_loan x borrower loan_id s)
  unfolding forget_loan remove_user_loan burn_loan_nft
  forget_loan_effect borrower loan_id = ground arith

  pub store_loan_effect :
      (loan : LoanRecord)
      → OnSuccess
          (λ r.
            KeepsBooks s r.1
            × (r.1.next_loan_id ≡ s.next_loan_id)
            × (r.1.loans ≡ update loan.borrower (some loan) s.loans)
            × (r.1.loans_by_id ≡ update loan.loan_id (some loan) s.loans_by_id))
          (store_loan x loan s)
  unfolding store_loan add_user_loan mint_loan_nft
  store_loan_effect loan = ground arith

  replace_loan_effect :
      (l : Ledger) (borrower : Address) (old_loan : LoanRecord) (terms : RefinanceTerms)
      → OnSuccess
          (λ r.
            KeepsBooks s r.1
            × (r.0 ≡ or_default 1 s.next_loan_id)
            × ((w : x.World) × (x.transfer old_loan.asset borrower l.contract_id
                    terms.refinancing_fee s.world
                  ≡ some w))
            × (r.1.loans
                ≡ update borrower
                    (some (record old_loan {
                      loan_id = r.0;
                      borrower = borrower;
                      principal = terms.new_principal;
                      borrow_time = l.timestamp;
                      due_date = terms.new_due_date;
                      interest_rate_bps = terms.new_interest_rate_bps;
                    }))
                    (update borrower none s.loans)))
          (replace_loan x l borrower old_loan terms s)
  unfolding replace_loan close_for_fee forget_loan remove_user_loan burn_loan_nft store_loan
      add_user_loan mint_loan_nft transfer increment_loan_id
  replace_loan_effect l borrower old_loan terms = ground arith

  admit_refinance_effect :
      (l : Ledger) (borrower : Address) (duration : ℕ)
      → OnSuccess
          (λ r.
            (l.authorized borrower ≡ true)
            × (s.access.reentrancy_lock ≡ false)
            × (s.loans borrower ≡ some r.0.0)
            × (l.timestamp ≤ r.0.0.due_date + grace_of s r.0.0.asset)
            × (r.1 ≡ record s { access = r.1.access })
            × (r.1.access.roles ≡ s.access.roles)
            × (r.0.1.outstanding_balance ≡ r.0.0.principal + interest_due l r.0.0)
            × (r.0.1.refinancing_fee ≡ r.0.1.outstanding_balance * refinancing_fee_bps / 10000)
            × (r.0.1.new_principal ≡ r.0.1.outstanding_balance + r.0.1.refinancing_fee)
            × (r.0.1.new_due_date ≡ l.timestamp + duration))
          (admit_refinance x l borrower duration s)
  unfolding admit_refinance require_initialized enter_reentrancy_guard get_open_loan
  admit_refinance_effect l borrower duration =
      let locked : Store x.World = record s {
        access = record s.access { reentrancy_lock = true };
      } in
      elim (Option-cases (s.loans borrower)) [
        | inl missing ↦ ground arith
        | inr (loan, found) ↦ ground (
          arith,
          is_in_grace_period_pure l locked borrower loan found,
          get_refinance_terms_pure l locked borrower duration loan found,
        )
      ]

module _ {W : Type 0} (s : Store W) where
  book_refinance_effect :
      (loan : LoanRecord) (pool : PoolState) (terms : RefinanceTerms)
      → s.pools loan.asset ≡ some pool
      → loan.principal ≤ terms.new_principal
      → OnSuccess
          (λ r.
            (r.1 ≡ record s {
              pools =
                  update loan.asset
                    (some (record pool {
                      retained_yield = pool.retained_yield + terms.refinancing_fee;
                      total_borrowed = pool.total_borrowed + (terms.new_principal - loan.principal);
                    }))
                    s.pools;
            })
            × (loan.principal < terms.new_principal
                → get_utilization_bps
                    (pool.total_borrowed + (terms.new_principal - loan.principal))
                    pool.total_deposits
                  ≤ pool.utilization_cap_bps))
          (book_refinance loan terms s)
  unfolding book_refinance get_pool set_pool
  book_refinance_effect loan pool terms found grown = ground arith

module _ (x : External) (l : Ledger) {s s' : Store x.World} where
  -- A refinancing was authorised, no later than the end of the grace period. The borrower paid the
  -- fee out, and the fee stands in the new principal as well, on top of the old principal and its
  -- interest. The collateral is kept, and the pool's borrowings grow by what the principal grew.
  pub refinance_loan-Refinanced :
      (borrower : Address) (duration new_id : ℕ)
      → refinance_loan x l borrower duration s ≡ ok (new_id, s')
      → (loan : LoanRecord) × (pool : PoolState) × (terms : RefinanceTerms) × Refinanced x l s s'
          borrower duration new_id loan pool terms
  unfolding refinance_loan exit_reentrancy_guard book_refinance get_pool
  refinance_loan-Refinanced borrower duration new_id h =
      elim (Outcome-cases (admit_refinance x l borrower duration s)) [
        | inr fails ↦ absurd (ground arith)
        | inl (((loan, terms), u), admits) ↦
            elim (Outcome-cases (replace_loan x l borrower loan terms u)) [
              | inr fails ↦ absurd (ground arith)
              | inl ((id, v), replaces) ↦ elim (Outcome-cases (book_refinance loan terms v)) [
                | inr fails ↦ absurd (ground arith)
                | inl ((done, w), books) ↦
                    let admitted =
                      OnSuccess_elim _ admits (admit_refinance_effect x s l borrower duration) in
                    let replaced =
                      OnSuccess_elim _ replaces (replace_loan_effect x u l borrower loan terms) in
                    elim (Option-cases (v.pools loan.asset)) [
                      | inl missing ↦ absurd (ground arith)
                      | inr (pool, found) ↦
                          let booked =
                            OnSuccess_elim _ books
                              (book_refinance_effect v loan pool terms found (ground arith)) in
                          (loan, pool, terms, ground arith)
                    ]
              ]
            ]
      ]
