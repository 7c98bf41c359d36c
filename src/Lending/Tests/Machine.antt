-- ===== src/Lending/Tests/Machine.antt =====
-- Sequences of calls.
use xource_x.Prelude.{◌≡◌, refl, true, arith}
use xource_x.Prelude.Outcome.{err}
use xource_x.Lending.Types.{not_admin}
use xource_x.Prelude.Dict.{lookup, insert, sum}
use xource_x.Prelude.Words.{mul_div_u128}
use xource_x.AccessControl.{holds}
use xource_x.Lending.Math.{shares_for_deposit, assets_for_shares}
use xource_x.Lending.Store.{Store}
use xource_x.Lending.Pool.{deposit, withdraw}
use xource_x.Lending.Admin
use xource_x.Lending.Admin.{is_listed}
use xource_x.Lending.Loans.Borrow.{lock_set}
use xource_x.Lending.Steps.{Step, Reach, Setting, apply_setting}
use xource_x.Lending.Steps.Sound.{IsSound}
use xource_x.Lending.Steps.Locked.{KeepsLocked, Reach-KeepsLocked}
use xource_x.Lending.Steps.Reachable.{Reach-IsSound}
use xource_x.Lending.Tests.Setup.{transfer_on, mock, ledger, later, store, after}

abbrev deposited : Store mock.World
unfolding deposit
deposited = after store (deposit mock ledger 3 9 600 store)

abbrev returned : Store mock.World
unfolding withdraw
returned = after deposited (withdraw mock later 3 9 500 deposited)

-- The admin pauses the pool of asset 9.
abbrev pause_pool : Setting
pause_pool = Setting.pause_asset_pool 7 9 true

abbrev paused : Store mock.World → Store mock.World
unfolding apply_setting Admin.pause_asset_pool
paused s = after s (apply_setting ledger pause_pool s)

deposit_then_withdraw : Reach mock store returned
unfolding deposit withdraw transfer_on lookup insert mul_div_u128 shares_for_deposit
    assets_for_shares
deposit_then_withdraw =
    Reach.after (Reach.after Reach.start (Step.deposited ledger 3 9 600 500 refl))
      (Step.withdrawn later 3 9 500 600 refl)

store-IsSound : IsSound store
unfolding sum is_listed holds
store-IsSound = record { pools = λ a. ground arith; ruled = λ a h. refl }

Reach-IsSound_example : IsSound returned
Reach-IsSound_example = Reach-IsSound mock deposit_then_withdraw store-IsSound

pause_while_locked : Reach mock (lock_set store) (paused (lock_set store))
unfolding apply_setting Admin.pause_asset_pool holds
pause_while_locked = Reach.after Reach.start (Step.configured ledger pause_pool refl)

Reach-KeepsLocked_example : KeepsLocked (lock_set store) (paused (lock_set store))
Reach-KeepsLocked_example = Reach-KeepsLocked mock refl refl pause_while_locked

pause_by_user : apply_setting ledger (Setting.pause_asset_pool 3 9 true) store ≡ err not_admin
unfolding apply_setting Admin.pause_asset_pool holds
pause_by_user = refl
