-- ===== src/Lending/Steps/Settings.antt =====
-- contracts/lending-contract/src/lib.rs: the entry points that change a setting. Each demands the
-- admin, and none of them moves what the pools hold or owe.
use xource_x.Prelude.{◌≡◌, Option, none, some, true, arith}
use xource_x.Prelude.Outcome.{ok}
use xource_x.AccessControl.{Address, Role, holds}
use xource_x.Lending.Types.{PoolState}
use xource_x.Lending.Store.{Ledger, Store}
use xource_x.Lending.Admin
use xource_x.Lending.Steps.{Setting, admin_of, apply_setting}

-- A pool's settings may change, its books may not.
abbrev pub SameBooks : Option PoolState → Option PoolState → Type 0
SameBooks none none = Unit
SameBooks none (some q) = ⊥
SameBooks (some p) none = ⊥
SameBooks (some p) (some q) = q ≡ record p {
  is_paused = q.is_paused;
  grace_period_seconds = q.grace_period_seconds;
  late_fee_rate_bps = q.late_fee_rate_bps;
}

module _ {W : Type 0} (l : Ledger) (c : Setting) (s t : Store W) where
  pub record Configured : Type 0 where
    pub authorized : l.authorized (admin_of c) ≡ true
    pub is_admin : holds Role.admin (s.access.roles (admin_of c)) ≡ true
    pub shares : t.shares ≡ s.shares
    pub supported_assets : t.supported_assets ≡ s.supported_assets
    pub admin : t.admin ≡ s.admin
    pub loans : t.loans ≡ s.loans
    pub world : t.world ≡ s.world
    pub books : (a : Address) → SameBooks (s.pools a) (t.pools a)
    pub lock : t.access.reentrancy_lock ≡ s.access.reentrancy_lock

module _ {W : Type 0} (l : Ledger) (s t : Store W) where
  -- A setting is changed only by a caller that has authorised the call and holds the admin role. It
  -- leaves the shares, the loans, the tokens, the lock, the list of assets and the books of every
  -- pool as they were.
  pub apply_setting-Configured :
      (c : Setting) → apply_setting l c s ≡ ok (tt, t) → Configured l c s t
  unfolding apply_setting Admin.grant Admin.revoke Admin.pause_asset_pool Admin.set_grace_period
      Admin.set_late_fee_rate Admin.pause Admin.unpause Admin.set_nft_token Admin.set_collateral
      Admin.set_flash_receiver Admin.set_flash_loan_fee Admin.add_reserve Admin.set_rate_model
  apply_setting-Configured (Setting.grant admin address role) h = ground arith
  apply_setting-Configured (Setting.revoke admin address role) h = ground arith
  apply_setting-Configured (Setting.pause_asset_pool admin asset paused) h = ground arith
  apply_setting-Configured (Setting.set_grace_period admin asset seconds) h = ground arith
  apply_setting-Configured (Setting.set_late_fee_rate admin asset rate) h = ground arith
  apply_setting-Configured (Setting.pause admin) h = ground arith
  apply_setting-Configured (Setting.unpause admin) h = ground arith
  apply_setting-Configured (Setting.set_nft_token admin nft_token) h = ground arith
  apply_setting-Configured (Setting.set_collateral accepted admin token) h = ground arith
  apply_setting-Configured (Setting.set_flash_receiver accepted admin receiver) h = ground arith
  apply_setting-Configured (Setting.set_flash_loan_fee admin fee_bps) h = ground arith
  apply_setting-Configured (Setting.add_reserve admin token ltv threshold) h = ground arith
  apply_setting-Configured (Setting.set_rate_model admin model) h = ground arith
