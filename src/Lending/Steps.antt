-- ===== src/Lending/Steps.antt =====
-- contracts/lending-contract/src/lib.rs: the contract as one machine. A step is a successful call of
-- one of the entry points below, by anyone and with any arguments, or anything that the other
-- contracts do.
pub mod Sound
pub mod Kept
pub mod Settings
pub mod Locked
pub mod Reachable
use xource_x.Prelude.{ℕ, ◌<◌, ◌≡◌, Bool, List, some}
use xource_x.Prelude.Outcome.{ok}
use xource_x.AccessControl.{Address, Role}
use xource_x.Lending.Types.{PoolState, RateModel}
use xource_x.Lending.Store.{External, Ledger, Store, Action}
use xource_x.Lending.Pool.{deposit, withdraw, withdraw_priority}
use xource_x.Lending.Loans.{borrow, repay, emit_interest_accrual}
use xource_x.Lending.Flash.{Receiver, flash_loan}
use xource_x.Lending.Liquidation.{liquidate}
use xource_x.Lending.ReserveFund.{liquidate_bad_debt}
use xource_x.Lending.Refinance.{refinance_loan}
use xource_x.Lending.Refinance.Consolidation.{consolidate_loans}
use xource_x.Lending.Refinance.Splitting.{split_loan}
use xource_x.Lending.Upkeep.{Upkeep, apply_upkeep}
use xource_x.Lending.Admin
use xource_x.Lending.Admin.{initialize, add_asset_pool}

-- A call of an entry point that changes a setting, or that only publishes an event.
pub data Setting : Type 0 where
  grant revoke : (admin address : Address) → Role → Setting
  pause_asset_pool : (admin asset : Address) → Bool → Setting
  set_grace_period set_late_fee_rate : (admin asset : Address) → ℕ → Setting
  pause unpause : (admin : Address) → Setting
  set_nft_token : (admin nft_token : Address) → Setting
  set_collateral set_flash_receiver : Bool → (admin address : Address) → Setting
  set_flash_loan_fee : (admin : Address) → ℕ → Setting
  add_reserve : (admin token : Address) → (ltv_bps liquidation_threshold_bps : ℕ) → Setting
  set_rate_model : (admin : Address) → RateModel → Setting

-- The address that a setting is called with as its admin.
abbrev pub admin_of : Setting → Address
admin_of (Setting.grant admin address role) = admin
admin_of (Setting.revoke admin address role) = admin
admin_of (Setting.pause_asset_pool admin asset paused) = admin
admin_of (Setting.set_grace_period admin asset seconds) = admin
admin_of (Setting.set_late_fee_rate admin asset rate) = admin
admin_of (Setting.pause admin) = admin
admin_of (Setting.unpause admin) = admin
admin_of (Setting.set_nft_token admin nft_token) = admin
admin_of (Setting.set_collateral accepted admin token) = admin
admin_of (Setting.set_flash_receiver accepted admin receiver) = admin
admin_of (Setting.set_flash_loan_fee admin fee_bps) = admin
admin_of (Setting.add_reserve admin token ltv_bps liquidation_threshold_bps) = admin
admin_of (Setting.set_rate_model admin model) = admin

unfoldable pub apply_setting : {W : Type 0} → Ledger → Setting → Action W (Unit {0})
apply_setting l (Setting.grant admin address role) = Admin.grant l admin address role
apply_setting l (Setting.revoke admin address role) = Admin.revoke l admin address role
apply_setting l (Setting.pause_asset_pool admin asset paused) =
    Admin.pause_asset_pool l admin asset paused
apply_setting l (Setting.set_grace_period admin asset seconds) =
    Admin.set_grace_period l admin asset seconds
apply_setting l (Setting.set_late_fee_rate admin asset rate) =
    Admin.set_late_fee_rate l admin asset rate
apply_setting l (Setting.pause admin) = Admin.pause l admin
apply_setting l (Setting.unpause admin) = Admin.unpause l admin
apply_setting l (Setting.set_nft_token admin nft_token) = Admin.set_nft_token l admin nft_token
apply_setting l (Setting.set_collateral accepted admin token) =
    Admin.set_collateral accepted l admin token
apply_setting l (Setting.set_flash_receiver accepted admin receiver) =
    Admin.set_flash_receiver accepted l admin receiver
apply_setting l (Setting.set_flash_loan_fee admin fee_bps) =
    Admin.set_flash_loan_fee l admin fee_bps
apply_setting l (Setting.add_reserve admin token ltv_bps liquidation_threshold_bps) =
    Admin.add_reserve l admin token ltv_bps liquidation_threshold_bps
apply_setting l (Setting.set_rate_model admin model) = Admin.set_rate_model l admin model

mutual
  pub data Step (x : External) : Store x.World → Store x.World → Type 0 where
    deposited :
        (l : Ledger) (user asset : Address) (amount minted : ℕ) {s t : Store x.World}
        → deposit x l user asset amount s ≡ ok (minted, t)
        → Step x s t
    withdrawn :
        (l : Ledger) (user asset : Address) (burned amount : ℕ) {s t : Store x.World}
        → withdraw x l user asset burned s ≡ ok (amount, t)
        → Step x s t
    priority_withdrawn :
        (l : Ledger) (caller asset : Address) (amount paid : ℕ) {s t : Store x.World}
        → withdraw_priority x l caller asset amount s ≡ ok (paid, t)
        → Step x s t
    borrowed :
        (l : Ledger) (borrower asset : Address) (amount : ℕ) (token : Address)
        (collateral duration loan_id : ℕ) {s t : Store x.World}
        → borrow x l borrower asset amount token collateral duration s ≡ ok (loan_id, t)
        → Step x s t
    repaid :
        (l : Ledger) (borrower : Address) (paid : ℕ) {s t : Store x.World}
        → repay x l borrower s ≡ ok (paid, t)
        → Step x s t
    liquidated :
        (l : Ledger) (liquidator borrower : Address) (amount seized : ℕ) {s t : Store x.World}
        → liquidate x l liquidator borrower amount s ≡ ok (seized, t)
        → Step x s t
    -- The receiver's callback may take any of these steps, in any order.
    flash_loaned :
        (l : Ledger) (initiator receiver_id : Address) (receiver : Receiver x) (asset : Address)
        (amount : ℕ) {s t : Store x.World}
        → ((fee : ℕ) (u v : Store x.World) → receiver amount fee initiator u ≡ some v → Reach x u v)
        → flash_loan x l initiator receiver_id receiver asset amount s ≡ ok (tt, t)
        → Step x s t
    initialized :
        (l : Ledger) (admin token : Address) (base_rate multiplier ratio cap : ℕ)
        {s t : Store x.World}
        → initialize l admin token base_rate multiplier ratio cap s ≡ ok (tt, t)
        → Step x s t
    added_asset_pool :
        (l : Ledger) (admin asset : Address) (base_rate multiplier cap : ℕ) {s t : Store x.World}
        → add_asset_pool l admin asset base_rate multiplier cap s ≡ ok (tt, t)
        → Step x s t
    configured :
        (l : Ledger) (c : Setting) {s t : Store x.World}
        → apply_setting l c s ≡ ok (tt, t)
        → Step x s t
    accrued :
        (l : Ledger) (borrower : Address) (interest : ℕ) {s t : Store x.World}
        → emit_interest_accrual x l borrower s ≡ ok (interest, t)
        → Step x s t
    -- Farming, reserves, insurance and plan yield.
    maintained :
        (l : Ledger) (c : Upkeep) {s t : Store x.World}
        → apply_upkeep x l c s ≡ ok (tt, t)
        → Step x s t
    written_off :
        (l : Ledger) (admin borrower : Address) (shortfall : ℕ) {s t : Store x.World}
        → liquidate_bad_debt x l admin borrower s ≡ ok (shortfall, t)
        → Step x s t
    consolidated :
        (l : Ledger) (borrower : Address) (loan_ids : List ℕ) (duration new_id : ℕ)
        {s t : Store x.World}
        → consolidate_loans x l borrower loan_ids duration s ≡ ok (new_id, t)
        → Step x s t
    split :
        (l : Ledger) (borrower : Address) (amounts ids : List ℕ) (duration : ℕ)
        {s t : Store x.World}
        → split_loan x l borrower amounts duration s ≡ ok (ids, t)
        → Step x s t
    -- A refinancing counts while every pool's utilization cap is below 100%.
    refinanced :
        (l : Ledger) (borrower : Address) (duration new_id : ℕ) {s t : Store x.World}
        → ((a : Address) (pool : PoolState)
            → s.pools a ≡ some pool
            → pool.utilization_cap_bps < 10_000)
        → refinance_loan x l borrower duration s ≡ ok (new_id, t)
        → Step x s t
    elsewhere : (w : x.World) {s : Store x.World} → Step x s (record s { world = w })

  pub data Reach (x : External) : Store x.World → Store x.World → Type 0 where
    start : {s : Store x.World} → Reach x s s
    after : {s t u : Store x.World} → Reach x s t → Step x t u → Reach x s u
