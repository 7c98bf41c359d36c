-- ===== src/Lending/Admin.antt =====
-- contracts/lending-contract/src/lib.rs: initialization and the admin's settings.
use xource_x.Prelude.{ℕ, Bool, true, false, ◌||◌, none, some, List, [], ◌∷◌, ◌++◌, leb, ◌==◌}
use xource_x.Prelude.Outcome.{◌>>=◌, ◌>>◌, gets, modify, raise_if}
use xource_x.Prelude.Dict.{update}
use xource_x.AccessControl.{
  Address, Role, assign_role, revoke_role, pause_contract, unpause_contract,
}
use xource_x.Lending.Types.{
  already_initialized, invalid_amount, reserve_already_exists, invalid_rate_model, PoolState,
  RateModel, ReserveConfig, RewardPool, reserve_added, rate_model_updated,
}
use xource_x.Lending.Store.{
  Ledger, Action, access_call, emit, require_auth, require_admin, get_pool, set_pool,
}

abbrev default_grace_period_seconds : ℕ
default_grace_period_seconds = 259_200

abbrev default_late_fee_rate_bps : ℕ
default_late_fee_rate_bps = 500

abbrev default_reward_rate : ℕ
default_reward_rate = 1_000_000_000

-- The pool that `initialize` and `add_asset_pool` store for a new asset.
unfoldable pub new_pool : ℕ → ℕ → ℕ → PoolState
new_pool base_rate_bps multiplier_bps utilization_cap_bps = record {
  total_deposits = 0;
  total_shares = 0;
  total_borrowed = 0;
  base_rate_bps = base_rate_bps;
  multiplier_bps = multiplier_bps;
  utilization_cap_bps = utilization_cap_bps;
  retained_yield = 0;
  bad_debt_reserve = 0;
  grace_period_seconds = default_grace_period_seconds;
  late_fee_rate_bps = default_late_fee_rate_bps;
  reserve_factor_bps = 1000;
  total_protocol_revenue = 0;
  is_paused = false;
}

unfoldable pub new_reward_pool : Ledger → RewardPool
new_reward_pool l = record {
  total_staked = 0;
  reward_rate = default_reward_rate;
  last_update_time = l.timestamp;
  reward_per_token_stored = 0;
  total_rewards_distributed = 0;
}

-- The loop over the supported assets in `add_asset_pool`.
unfoldable pub is_listed : Address → List Address → Bool
is_listed asset [] = false
is_listed asset (a ∷ rest) = a == asset || is_listed asset rest

module _ {W : Type 0} where
  unfoldable pub initialize : Ledger → Address → Address → ℕ → ℕ → ℕ → ℕ → Action W (Unit {0})
  unfolding new_pool new_reward_pool assign_role
  initialize l admin token base_rate_bps multiplier_bps collateral_ratio_bps utilization_cap_bps =
      do
        require_auth l admin
        existing ← gets (λ s. s.admin)
        raise_if (elim existing [ some _ ↦ true | none ↦ false ]) already_initialized
        modify (λ s. record s {
          admin = some admin;
          token = some token;
          supported_assets = token ∷ [];
          collateral_ratio = some collateral_ratio_bps;
          pools =
              update token (some (new_pool base_rate_bps multiplier_bps utilization_cap_bps))
                s.pools;
          reward_pools = update token (some (new_reward_pool l)) s.reward_pools;
          insurance_fund = some (record {
            total_premiums_collected = 0;
            total_claims_paid = 0;
            available_balance = 0;
          });
          insurance_premium_rate = some 200;
        })
        access_call (assign_role admin Role.admin)

  unfoldable pub add_asset_pool : Ledger → Address → Address → ℕ → ℕ → ℕ → Action W (Unit {0})
  unfolding require_admin new_pool new_reward_pool is_listed
  add_asset_pool l admin asset base_rate_bps multiplier_bps utilization_cap_bps = do
    require_admin l admin
    assets ← gets (λ s. s.supported_assets)
    raise_if (is_listed asset assets) already_initialized
    modify (λ s. record s {
      supported_assets = assets ++ asset ∷ [];
      pools =
          update asset (some (new_pool base_rate_bps multiplier_bps utilization_cap_bps)) s.pools;
      reward_pools = update asset (some (new_reward_pool l)) s.reward_pools;
    })

  -- `assign_role` and `revoke_role` of the contract
  unfoldable pub grant : Ledger → Address → Address → Role → Action W (Unit {0})
  unfolding require_admin assign_role
  grant l admin address role = do require_admin l admin; access_call (assign_role address role)

  unfoldable pub revoke : Ledger → Address → Address → Role → Action W (Unit {0})
  unfolding require_admin revoke_role
  revoke l admin address role = do require_admin l admin; access_call (revoke_role address role)

  -- Replaces the stored pool of an asset, for the admin.
  abbrev change_pool : Ledger → Address → Address → (PoolState → PoolState) → Action W (Unit {0})
  change_pool l admin asset f = do
    require_admin l admin
    pool ← get_pool asset
    set_pool asset (f pool)

  unfoldable pub pause_asset_pool : Ledger → Address → Address → Bool → Action W (Unit {0})
  unfolding require_admin get_pool set_pool
  pause_asset_pool l admin asset paused =
      change_pool l admin asset λ pool. record pool { is_paused = paused }

  unfoldable pub set_grace_period : Ledger → Address → Address → ℕ → Action W (Unit {0})
  unfolding require_admin get_pool set_pool
  set_grace_period l admin asset seconds =
      change_pool l admin asset λ pool. record pool { grace_period_seconds = seconds }

  unfoldable pub set_late_fee_rate : Ledger → Address → Address → ℕ → Action W (Unit {0})
  unfolding require_admin get_pool set_pool
  set_late_fee_rate l admin asset late_fee_rate_bps =
      change_pool l admin asset λ pool. record pool { late_fee_rate_bps = late_fee_rate_bps }

  unfoldable pub pause : Ledger → Address → Action W (Unit {0})
  unfolding require_admin pause_contract
  pause l admin = do require_admin l admin; access_call pause_contract

  unfoldable pub unpause : Ledger → Address → Action W (Unit {0})
  unfolding require_admin unpause_contract
  unpause l admin = do require_admin l admin; access_call unpause_contract

  unfoldable pub set_nft_token : Ledger → Address → Address → Action W (Unit {0})
  unfolding require_admin
  set_nft_token l admin nft_token = do
    require_admin l admin
    modify (λ s. record s { nft_token = some nft_token })

  -- `whitelist_collateral` and `remove_collateral`
  unfoldable pub set_collateral : Bool → Ledger → Address → Address → Action W (Unit {0})
  unfolding require_admin
  set_collateral accepted l admin token = do
    require_admin l admin
    modify
        (λ s. record s { whitelisted_collateral = update token accepted s.whitelisted_collateral })

  -- `whitelist_flash_loan_receiver` and `remove_flash_loan_receiver`
  unfoldable pub set_flash_receiver : Bool → Ledger → Address → Address → Action W (Unit {0})
  unfolding require_admin
  set_flash_receiver accepted l admin receiver = do
    require_admin l admin
    modify (λ s. record s { flash_receivers = update receiver accepted s.flash_receivers })

  unfoldable pub set_flash_loan_fee : Ledger → Address → ℕ → Action W (Unit {0})
  unfolding require_admin
  set_flash_loan_fee l admin fee_bps = do
    require_admin l admin
    modify (λ s. record s { flash_loan_fee_bps = some fee_bps })

  unfoldable pub add_reserve : Ledger → Address → Address → ℕ → ℕ → Action W (Unit {0})
  unfolding require_admin
  add_reserve l admin token ltv_bps liquidation_threshold_bps = do
    require_admin l admin
    raise_if ((ltv_bps == 0) || (liquidation_threshold_bps == 0)) invalid_amount
    existing ← gets (λ s. s.reserves token)
    raise_if (elim existing [ some _ ↦ true | none ↦ false ]) reserve_already_exists
    let reserve : ReserveConfig = record {
      token = token;
      ltv_bps = ltv_bps;
      liquidation_threshold_bps = liquidation_threshold_bps;
      total_borrowed = 0;
      total_collateral = 0;
      enabled = true;
    }
    modify (λ s. record s {
      reserves = update token (some reserve) s.reserves;
      whitelisted_collateral = update token true s.whitelisted_collateral;
    })
    emit (reserve_added token ltv_bps liquidation_threshold_bps)

  unfoldable pub set_rate_model : Ledger → Address → RateModel → Action W (Unit {0})
  unfolding require_admin
  set_rate_model l admin model = do
    require_admin l admin
    raise_if ((model.optimal_utilization_bps == 0) || leb 10000 model.optimal_utilization_bps)
        invalid_rate_model
    raise_if (leb 10000 model.reserve_factor_bps) invalid_rate_model
    modify (λ s. record s { rate_model = some model })
    emit (rate_model_updated model admin l.timestamp)
