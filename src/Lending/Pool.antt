-- ===== src/Lending/Pool.antt =====
-- contracts/lending-contract/src/lib.rs: `deposit`, `withdraw` and `withdraw_priority`, with the
-- pool views that they share.
pub mod Effects
pub mod Value
pub mod Totals
use xource_x.Prelude.{
  ℕ, ◌+◌, ◌-◌, Bool, true, false, Option, none, some, ltb, leb, ◌==◌, if◌then◌else◌,
}
use xource_x.Prelude.Outcome.{◌>>=◌, ◌>>◌, pure, gets, raise_if}
use xource_x.AccessControl.{Address}
use xource_x.Lending.Types.{
  PoolState, invalid_amount, pool_paused, insufficient_shares, insufficient_liquidity,
  flash_loan_defense, deposited, withdrawn, priority_withdrawn,
}
use xource_x.Lending.Math.{minimum_liquidity, shares_for_deposit, assets_for_shares}
use xource_x.Lending.Store.{
  External, Ledger, Store, Action, emit, require_auth, add_u64, sub_u64, require_initialized,
  enter_reentrancy_guard, exit_reentrancy_guard, ensure_not_paused, get_pool, set_pool, get_shares,
  set_shares, set_user_deposit_ledger, transfer,
}

-- The tokens of a pool that are not on loan.
abbrev pub available : PoolState → ℕ
available pool = pool.total_deposits - pool.total_borrowed

-- The first deposit locks `minimum_liquidity` shares in the pool for good.
unfoldable pub lock_minimum : {W : Type 0} → PoolState → ℕ → Action W (PoolState × ℕ)
lock_minimum pool shares =
    if pool.total_shares == 0
    then (do
      raise_if (leb shares minimum_liquidity) invalid_amount
      total_shares ← add_u64 pool.total_shares minimum_liquidity
      pure (record pool { total_shares = total_shares }, shares - minimum_liquidity))
    else pure (pool, shares)

-- A user may not withdraw or borrow in the ledger in which they deposited.
unfoldable pub flash_defense : {W : Type 0} → Ledger → Address → Address → Action W (Unit {0})
flash_defense l asset user = do
  found ← gets (λ s. s.deposit_ledgers asset user)
  raise_if (elim found [ some deposit_ledger ↦ leb l.sequence deposit_ledger | none ↦ false ])
      flash_loan_defense

module _ (x : External) where
  open x use {World}

  unfoldable pub deposit : Ledger → Address → Address → ℕ → Action World ℕ
  unfolding ensure_not_paused require_initialized enter_reentrancy_guard exit_reentrancy_guard
      get_pool set_pool get_shares set_shares set_user_deposit_ledger transfer lock_minimum
  deposit l depositor asset amount = do
    ensure_not_paused
    require_initialized
    enter_reentrancy_guard
    require_auth l depositor
    raise_if (amount == 0) invalid_amount
    pool ← get_pool asset
    raise_if pool.is_paused pool_paused
    transfer x asset depositor l.contract_id amount
    seeded ← lock_minimum pool (shares_for_deposit pool amount)
    raise_if (seeded.1 == 0) invalid_amount
    total_deposits ← add_u64 seeded.0.total_deposits amount
    total_shares ← add_u64 seeded.0.total_shares seeded.1
    set_pool asset
        (record seeded.0 { total_deposits = total_deposits; total_shares = total_shares })
    existing ← get_shares asset depositor
    owned ← add_u64 existing seeded.1
    set_shares asset depositor owned
    set_user_deposit_ledger asset depositor l.sequence
    emit (deposited depositor asset amount seeded.1)
    exit_reentrancy_guard
    pure seeded.1

  unfoldable pub withdraw : Ledger → Address → Address → ℕ → Action World ℕ
  unfolding ensure_not_paused require_initialized enter_reentrancy_guard exit_reentrancy_guard
      get_pool set_pool get_shares set_shares transfer flash_defense
  withdraw l depositor asset shares = do
    ensure_not_paused
    require_initialized
    enter_reentrancy_guard
    require_auth l depositor
    raise_if (shares == 0) invalid_amount
    flash_defense l asset depositor
    depositor_shares ← get_shares asset depositor
    raise_if (ltb depositor_shares shares) insufficient_shares
    pool ← get_pool asset
    raise_if pool.is_paused pool_paused
    let amount = assets_for_shares pool shares
    raise_if (amount == 0) invalid_amount
    raise_if (ltb (available pool) amount) insufficient_liquidity
    total_deposits ← sub_u64 pool.total_deposits amount
    total_shares ← sub_u64 pool.total_shares shares
    set_pool asset (record pool { total_deposits = total_deposits; total_shares = total_shares })
    left ← sub_u64 depositor_shares shares
    set_shares asset depositor left
    transfer x asset l.contract_id depositor amount
    emit (withdrawn depositor asset shares amount)
    exit_reentrancy_guard
    pure amount

  unfoldable pub withdraw_priority : Ledger → Address → Address → ℕ → Action World ℕ
  unfolding ensure_not_paused require_initialized enter_reentrancy_guard exit_reentrancy_guard
      get_pool set_pool transfer
  withdraw_priority l caller asset amount = do
    ensure_not_paused
    require_initialized
    enter_reentrancy_guard
    require_auth l caller
    raise_if (amount == 0) invalid_amount
    pool ← get_pool asset
    raise_if (ltb pool.retained_yield amount) insufficient_liquidity
    retained_yield ← sub_u64 pool.retained_yield amount
    set_pool asset (record pool { retained_yield = retained_yield })
    transfer x asset l.contract_id caller amount
    emit (priority_withdrawn caller asset amount)
    exit_reentrancy_guard
    pure amount
