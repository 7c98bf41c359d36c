-- ===== src/Lending/Liquidation/Effects.antt =====
-- The effect of a successful `liquidate`: whom it admits, what it books, and what it leaves.
use xource_x.Prelude.{
  ℕ, ◌+◌, ◌-◌, ◌*◌, ◌≤◌, ◌<◌, ◌≡◌, inl, inr, Option-cases, some, true, false, subst, arith,
}
use xource_x.Prelude.Outcome.{ok}
use xource_x.Prelude.Dict.{update}
use xource_x.AccessControl.{Address}
use xource_x.Lending.Types.{PoolState, LoanRecord}
use xource_x.Lending.Store.{External, Ledger, Store}
use xource_x.Lending.Pool.{available}
use xource_x.Lending.Pool.Effects.{KeepsListing}
use xource_x.Lending.Liquidation.{
  health_factor, collateral_to_seize, liquidation_threshold_bps, liquidate,
}

module _ (x : External) (l : Ledger) (s s' : Store x.World) where
  -- A liquidation that paid `amount`, which left the tokens as `received`, for `seized` units of the
  -- collateral.
  pub record Liquidated (liquidator borrower : Address) (amount seized : ℕ) (loan : LoanRecord)
      (pool : PoolState) (received : x.World) : Type 0 where
    pub authorized : l.authorized liquidator ≡ true
    pub not_reentered : s.access.reentrancy_lock ≡ false
    pub open_loan : s.loans borrower ≡ some loan
    pub found : s.pools loan.asset ≡ some pool
    pub some_amount : 0 < amount
    pub part : amount ≤ loan.principal
    pub overdue : loan.due_date + pool.grace_period_seconds < l.timestamp
    pub unhealthy : health_factor loan < liquidation_threshold_bps
    pub seized_is : seized ≡ collateral_to_seize amount
    pub covered : seized ≤ loan.collateral_amount
    pub paid_in : x.transfer loan.asset liquidator l.contract_id amount s.world ≡ some received
    pub paid_out :
        x.transfer loan.collateral_token l.contract_id liquidator seized received ≡ some s'.world
    pub pools :
        s'.pools
        ≡ update loan.asset
            (some (record pool {
              total_deposits = pool.total_deposits + amount;
              total_borrowed = pool.total_borrowed - amount;
            }))
            s.pools
    pub loans : s'.loans ≡ s.loans
    pub loans_by_id : s'.loans_by_id ≡ s.loans_by_id
    pub user_loans : s'.user_loans ≡ s.user_loans
    pub shares : s'.shares ≡ s.shares
    pub unlocked : s'.access.reentrancy_lock ≡ false
    pub listing : KeepsListing s s'

module _ (x : External) (l : Ledger) {s s' : Store x.World} where
  -- A successful liquidation was authorised and came after the grace period of an unhealthy loan. The
  -- liquidator paid the amount in, and got one and a half times the amount of the collateral token
  -- out, within the loan's collateral; those are the only tokens that moved. The pool's deposits grew
  -- by the amount, and its borrowings fell by it, to no less than 0. The loan's record stays as it
  -- was.
  pub liquidate-Liquidated :
      (liquidator borrower : Address) (amount seized : ℕ)
      → liquidate x l liquidator borrower amount s ≡ ok (seized, s')
      → (loan : LoanRecord) × (pool : PoolState) × (received : x.World) × Liquidated x l s s'
          liquidator borrower amount seized loan pool received
  unfolding liquidate
  liquidate-Liquidated liquidator borrower amount seized h =
      elim (Option-cases (s.loans borrower)) [
        | inl missing ↦ absurd (ground arith)
        | inr (loan, open_loan) ↦ elim (Option-cases (s.pools loan.asset)) [
          | inl missing ↦ absurd (ground arith)
          | inr (pool, found) ↦
              elim (Option-cases (x.transfer loan.asset liquidator l.contract_id amount s.world)) [
                | inl failed ↦ absurd (ground arith)
                | inr (received, paid_in) ↦ (loan, pool, received, ground arith)
              ]
        ]
      ]

module _ (x : External) (l : Ledger) (s s' : Store x.World) where
  double_credit :
      (liquidator borrower : Address) (amount seized : ℕ) (loan : LoanRecord)
      (pool pool' p : PoolState) (received : x.World)
      → s.pools loan.asset ≡ some pool
      → s'.pools loan.asset ≡ some pool'
      → pool.total_borrowed ≤ pool.total_deposits
      → amount ≤ pool.total_borrowed
      → Liquidated x l s s' liquidator borrower amount seized loan p received
      → available pool' ≡ available pool + 2 * amount
  double_credit liquidator borrower amount seized loan pool pool' p received found found' solvent
        on_loan d =
      ground arith

  -- Where the pool has lent no more than its deposits, and the amount is no more than what it has
  -- lent, the pool counts a liquidation's payment twice: the one transfer of the loan's asset pays
  -- `amount` in, the other is of the collateral, and what the pool counts as liquid grows by twice the
  -- amount.
  pub liquidate-double_credit :
      (liquidator borrower : Address) (amount seized : ℕ) (loan : LoanRecord)
      (pool pool' : PoolState)
      → s.loans borrower ≡ some loan
      → s.pools loan.asset ≡ some pool
      → s'.pools loan.asset ≡ some pool'
      → pool.total_borrowed ≤ pool.total_deposits
      → amount ≤ pool.total_borrowed
      → liquidate x l liquidator borrower amount s ≡ ok (seized, s')
      → (received : x.World) × (x.transfer loan.asset liquidator l.contract_id amount s.world
          ≡ some received)
        × (x.transfer loan.collateral_token l.contract_id liquidator seized received
            ≡ some s'.world)
        × (available pool' ≡ available pool + 2 * amount)
  liquidate-double_credit liquidator borrower amount seized loan pool pool' open_loan found found'
        solvent on_loan h =
      let (loan', p, received, d) = liquidate-Liquidated x l liquidator borrower amount seized h in
      let same : loan' ≡ loan = cc (d.open_loan) in
      let e =
        subst (λ k. Liquidated x l s s' liquidator borrower amount seized k p received) same d in
      (
        received,
        e.paid_in,
        e.paid_out,
        double_credit liquidator borrower amount seized loan pool pool' p received found found'
            solvent on_loan e,
      )
