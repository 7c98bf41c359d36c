-- ===== src/Lending/Flash.antt =====
-- contracts/lending-contract/src/lib.rs: `flash_loan`. The receiver is a contract outside the
-- library: its callback may change every contract's storage, this one's too, through the entry
-- points that it calls.
pub mod Effects
use xource_x.Prelude.{
  ℕ, ◌+◌, ◌-◌, Bool, true, false, not, Option, none, some, ltb, ◌==◌, if◌then◌else◌,
}
use xource_x.Prelude.Words.{as_u64, mul_div_u128}
use xource_x.Prelude.Outcome.{
  Outcome, ok, err, trap, ◌>>=◌, ◌>>◌, pure, gets, modify, raise_if, unwrap,
}
use xource_x.Prelude.Dict.{or_default}
use xource_x.AccessControl.{Address}
use xource_x.Lending.Types.{
  LendingError, PoolState, invalid_amount, pool_paused, insufficient_liquidity, unauthorized,
  utilization_cap_exceeded, flash_loan_not_repaid, flash_loaned,
}
use xource_x.Lending.Math.{get_utilization_bps}
use xource_x.Lending.Store.{
  External, Ledger, Store, Action, emit, require_auth, add_u64, require_initialized,
  enter_reentrancy_guard, exit_reentrancy_guard, ensure_not_paused, get_pool, set_pool, invoke,
}
use xource_x.Lending.Pool.{available}

module _ (x : External) where
  open x use {World}

  -- `execute_operation` of the receiver, given amount, fee and initiator: it traps, or it ends in
  -- new storages.
  abbrev pub Receiver : Type 0
  Receiver = ℕ → ℕ → Address → Store World → Option (Store World)

  abbrev call_receiver : Receiver → ℕ → ℕ → Address → Action World (Unit {0})
  call_receiver receiver amount fee initiator s = elim (receiver amount fee initiator s) [
    | some s' ↦ ok (tt, s')
    | none ↦ trap
  ]

  -- The tests of `flash_loan_inner`; returns the pool and the fee.
  unfoldable pub flash_terms : Address → ℕ → Action World (PoolState × ℕ)
  unfolding get_pool
  flash_terms asset amount = do
    raise_if (amount == 0) invalid_amount
    pool ← get_pool asset
    raise_if pool.is_paused pool_paused
    raise_if (ltb (available pool) amount) insufficient_liquidity
    new_borrowed ← add_u64 pool.total_borrowed amount
    raise_if (ltb pool.utilization_cap_bps (get_utilization_bps new_borrowed pool.total_deposits))
        utilization_cap_exceeded
    fee_bps ← gets (λ s. or_default 9 s.flash_loan_fee_bps)
    pure (pool, as_u64 (mul_div_u128 amount fee_bps 10000))

  -- The loan goes out, the receiver runs, and the balance is compared; then the fee is booked to the
  -- pool as it was read before the callback.
  unfoldable pub flash_loan_inner :
      Ledger → Address → Address → Receiver → Address → ℕ → Action World (Unit {0})
  unfolding flash_terms set_pool
  flash_loan_inner l initiator receiver_id receiver asset amount = do
    terms ← flash_terms asset amount
    balance_before ← gets (λ s. x.balance asset l.contract_id s.world)
    invoke x (x.transfer asset l.contract_id receiver_id amount)
    call_receiver receiver amount terms.1 initiator
    balance_after ← gets (λ s. x.balance asset l.contract_id s.world)
    raise_if (ltb balance_after (balance_before + terms.1)) flash_loan_not_repaid
    total_deposits ← add_u64 terms.0.total_deposits terms.1
    set_pool asset (record terms.0 { total_deposits = total_deposits })
    emit (flash_loaned receiver_id asset amount terms.1)

  unfoldable pub flash_loan :
      Ledger → Address → Address → Receiver → Address → ℕ → Action World (Unit {0})
  unfolding ensure_not_paused require_initialized enter_reentrancy_guard exit_reentrancy_guard
  flash_loan l initiator receiver_id receiver asset amount = do
    ensure_not_paused
    require_initialized
    require_auth l initiator
    is_whitelisted ← gets (λ s. s.flash_receivers receiver_id)
    raise_if (not is_whitelisted) unauthorized
    enter_reentrancy_guard
    flash_loan_inner l initiator receiver_id receiver asset amount
    exit_reentrancy_guard
