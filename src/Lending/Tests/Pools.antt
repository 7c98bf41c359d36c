-- ===== src/Lending/Tests/Pools.antt =====
-- Deposits and withdrawals.
use xource_x.Prelude.{◌*◌, ◌≤◌, ◌≡◌, refl, inl, none, some, arith}
use xource_x.Prelude.Outcome.{err}
use xource_x.Prelude.Dict.{lookup, insert}
use xource_x.Prelude.Words.{mul_div_u128}
use xource_x.Lending.Types.{PoolState, invalid_amount}
use xource_x.Lending.Math.{shares_for_deposit, assets_for_shares}
use xource_x.Lending.Store.{Store}
use xource_x.Lending.Pool.{deposit, withdraw}
use xource_x.Lending.Pool.Effects.{Deposited, Withdrawn, deposit-Deposited, withdraw-Withdrawn}
use xource_x.Lending.Pool.Value.{deposit-share_value, withdraw-deposit-le}
use xource_x.Lending.Tests.Setup.{transfer_on, mock, ledger, later, pool, store, after, result}

abbrev deposited : Store mock.World
unfolding deposit
deposited = after store (deposit mock ledger 3 9 600 store)

abbrev withdrawn : Store mock.World
unfolding withdraw
withdrawn = after store (withdraw mock ledger 1 9 1_000 store)

abbrev returned : Store mock.World
unfolding withdraw
returned = after deposited (withdraw mock later 3 9 500 deposited)

-- The pool that a store holds for asset 9.
abbrev pool_of : Store mock.World → PoolState
pool_of s = elim (s.pools 9) [ some p ↦ p | none ↦ pool ]

deposit_mints : result (deposit mock ledger 3 9 600 store) ≡ 500
unfolding deposit transfer_on lookup insert mul_div_u128 shares_for_deposit
deposit_mints = refl

deposit_too_small : deposit mock ledger 3 9 1 store ≡ err invalid_amount
unfolding deposit transfer_on lookup insert mul_div_u128 shares_for_deposit
deposit_too_small = refl

deposit-Deposited_example : (p : PoolState) × Deposited mock ledger store deposited 3 9 600 500 p
unfolding deposit transfer_on lookup insert mul_div_u128 shares_for_deposit
deposit-Deposited_example = deposit-Deposited mock ledger 3 9 600 500 refl

withdraw-Withdrawn_example :
    (p : PoolState) × Withdrawn mock ledger store withdrawn 1 9 1_000 1_200 p
unfolding withdraw transfer_on lookup insert mul_div_u128 assets_for_shares
withdraw-Withdrawn_example = withdraw-Withdrawn mock ledger 1 9 1_000 1_200 refl

deposit-share_value_example : 12_000 * 10_500 ≤ 12_600 * 10_000
unfolding deposit transfer_on lookup insert mul_div_u128 shares_for_deposit
deposit-share_value_example =
    deposit-share_value mock ledger store deposited 3 9 600 500 pool (pool_of deposited) refl refl
      (omega arith) refl

withdraw-deposit-le_example : 600 ≤ 600
unfolding deposit withdraw transfer_on lookup insert mul_div_u128 shares_for_deposit
    assets_for_shares
withdraw-deposit-le_example =
    withdraw-deposit-le mock ledger store deposited returned later 3 9 600 500 600 pool refl
      (inl (omega arith)) refl refl
