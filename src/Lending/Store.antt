-- ===== src/Lending/Store.antt =====
-- contracts/lending-contract/src/lib.rs: the contract's storage, one field for each key of
-- `DataKey` that is modelled, the ledger that a call sees, the contracts that it calls, and the
-- private getters and setters.
use xource_x.Prelude.{
  ℕ, ◌+◌, ◌-◌, Bool, not, Option, some, List, [], ◌∷◌, ◌++◌, ltb, ◌==◌, if◌then◌else◌,
}
use xource_x.Prelude.Words.{u64_mod, checked_add_u64, saturating_add_u64}
use xource_x.Prelude.Outcome.{
  ok, err, trap, Contract, ◌>>=◌, ◌>>◌, pure, gets, modify, panic_if, or_raise, unwrap,
}
use xource_x.Prelude.Dict.{Dict, lookup, insert, update, or_default}
use xource_x.AccessControl.{
  Address, Role, AccessStore, reentrancy_enter, reentrancy_exit, require_not_paused, require_role,
}
use xource_x.Lending.Types.{
  LendingError, not_initialized, not_admin, invalid_amount, transfer_failed, reentrant_call,
  asset_not_supported, contract_paused, reserve_not_found, PoolState, LoanRecord, RateModel,
  ReserveConfig, RewardPool, InsuranceFund, UserStake, LoanInsurance, PlanYieldPosition, Event,
}

-- The metadata that `borrow` hands to the loan NFT contract.
pub record NftLoanMetadata : Type 0 where
  pub loan_id : ℕ
  pub borrower : Address
  pub principal : ℕ
  pub collateral_amount : ℕ
  pub collateral_token : Address
  pub due_date : ℕ
  pub ltv_ratio_bps : ℕ
  pub plan_id : ℕ
  pub uri : List ℕ

-- The contracts that a call reaches by address. `World` is all that they store; a call of one that
-- fails is `none`. The code relies on nothing else of them.
pub record External : Type 1 where
  pub World : Type 0
  -- `transfer` and `balance` of the token at the first address
  pub transfer : Address → Address → Address → ℕ → World → Option World
  pub balance : Address → Address → World → ℕ
  -- `mint` and `burn` of the NFT contract at the first address
  pub mint : Address → Address → NftLoanMetadata → World → Option World
  pub burn : Address → ℕ → World → Option World

-- What `env` gives to a call: the ledger, the addresses that authorised it, the contract's own.
pub record Ledger : Type 0 where
  pub timestamp : ℕ
  pub sequence : ℕ
  pub authorized : Address → Bool
  pub contract_id : Address

-- A flag that is removed reads as false, a list as empty, a counter as 0.
pub record Store (World : Type 0) : Type 0 where
  pub admin : Option Address
  pub token : Option Address
  pub supported_assets : List Address
  pub collateral_ratio : Option ℕ
  pub pools : Address → Option PoolState
  -- the shares of an asset's pool, by owner
  pub shares : Address → Dict ℕ
  -- by asset and user
  pub deposit_ledgers : Address → Address → Option ℕ
  pub next_loan_id : Option ℕ
  pub loans : Address → Option LoanRecord
  pub loans_by_id : ℕ → Option LoanRecord
  pub user_loans : Address → List ℕ
  pub whitelisted_collateral : Address → Bool
  pub reserves : Address → Option ReserveConfig
  pub nft_token : Option Address
  pub late_fees_accrued : ℕ → ℕ
  pub flash_loan_fee_bps : Option ℕ
  pub flash_receivers : Address → Bool
  pub rate_model : Option RateModel
  pub reward_pools : Address → Option RewardPool
  pub insurance_fund : Option InsuranceFund
  pub insurance_premium_rate : Option ℕ
  -- by user and asset
  pub user_stakes : Address → Address → Option UserStake
  pub insurance : ℕ → Option LoanInsurance
  pub inheritance_contract : Option Address
  pub governance_contract : Option Address
  pub plan_yields : ℕ → Option PlanYieldPosition
  pub plan_yield_index : List ℕ
  pub access : AccessStore
  pub events : List Event
  pub world : World

-- An entry point or helper of the contract, where the other contracts store a `W`.
abbrev pub Action : Type 0 → Type 0 → Type 0
Action W = Contract (Store W) LendingError

module _ {W : Type 0} where
  -- A call of the access-control library on this contract's keys.
  abbrev pub access_call : {A : Type 0} → Contract AccessStore LendingError A → Action W A
  access_call m s = elim (m s.access) [
    | ok r ↦ ok (r.0, record s { access = r.1 })
    | err e ↦ err e
    | trap ↦ trap
  ]

  abbrev pub emit : Event → Action W (Unit {0})
  emit e = modify (λ s. record s { events = e ∷ s.events })

  -- `address.require_auth()`
  abbrev pub require_auth : Ledger → Address → Action W (Unit {0})
  require_auth l a = panic_if (not (l.authorized a))

  -- `a + b`, `a - b` on u64: an overflow traps (overflow-checks in contracts/Cargo.toml).
  abbrev pub add_u64 : ℕ → ℕ → Action W ℕ
  add_u64 a b = do panic_if (not (ltb (a + b) u64_mod)); pure (a + b)

  abbrev pub sub_u64 : ℕ → ℕ → Action W ℕ
  sub_u64 a b = do panic_if (ltb a b); pure (a - b)

  unfoldable pub require_initialized : Action W (Unit {0})
  require_initialized = do admin ← gets (λ s. s.admin); or_raise admin not_initialized; pure tt

  unfoldable pub enter_reentrancy_guard : Action W (Unit {0})
  unfolding reentrancy_enter
  enter_reentrancy_guard = access_call (reentrancy_enter reentrant_call)

  unfoldable pub exit_reentrancy_guard : Action W (Unit {0})
  unfolding reentrancy_exit
  exit_reentrancy_guard = access_call reentrancy_exit

  unfoldable pub ensure_not_paused : Action W (Unit {0})
  unfolding require_not_paused
  ensure_not_paused = access_call (require_not_paused contract_paused)

  unfoldable pub require_admin : Ledger → Address → Action W (Unit {0})
  unfolding require_role
  require_admin l caller = do
    require_auth l caller
    access_call (require_role caller Role.admin not_admin)

  unfoldable pub get_pool : Address → Action W PoolState
  get_pool asset = do found ← gets (λ s. s.pools asset); or_raise found asset_not_supported

  unfoldable pub set_pool : Address → PoolState → Action W (Unit {0})
  set_pool asset pool = modify (λ s. record s { pools = update asset (some pool) s.pools })

  unfoldable pub get_shares : Address → Address → Action W ℕ
  get_shares asset owner = gets (λ s. or_default 0 (lookup owner (s.shares asset)))

  unfoldable pub set_shares : Address → Address → ℕ → Action W (Unit {0})
  set_shares asset owner n =
      modify (λ s. record s { shares = update asset (insert owner n (s.shares asset)) s.shares })

  unfoldable pub set_user_deposit_ledger : Address → Address → ℕ → Action W (Unit {0})
  set_user_deposit_ledger asset user ledger = modify (λ s. record s {
    deposit_ledgers =
        update asset (update user (some ledger) (s.deposit_ledgers asset)) s.deposit_ledgers;
  })

  -- Returns the id that is next, and stores its successor.
  unfoldable pub increment_loan_id : Action W ℕ
  increment_loan_id = do
    current ← gets (λ s. or_default 1 s.next_loan_id)
    following ← add_u64 current 1
    modify (λ s. record s { next_loan_id = some following })
    pure current

  unfoldable pub add_user_loan : Address → ℕ → Action W (Unit {0})
  add_user_loan user loan_id =
      modify (λ s. record s {
        user_loans = update user (s.user_loans user ++ loan_id ∷ []) s.user_loans;
      })

-- The loop of `remove_user_loan`.
unfoldable pub without_id : ℕ → List ℕ → List ℕ
without_id loan_id [] = []
without_id loan_id (i ∷ rest) =
    let kept = without_id loan_id rest in if i == loan_id then kept else i ∷ kept

module _ {W : Type 0} where
  unfoldable pub remove_user_loan : Address → ℕ → Action W (Unit {0})
  unfolding without_id
  remove_user_loan user loan_id = modify (λ s. record s {
    user_loans = update user (without_id loan_id (s.user_loans user)) s.user_loans;
  })

  -- A change of the reserve that is stored for `token`.
  abbrev pub change_reserve : Address → (ReserveConfig → ReserveConfig) → Action W (Unit {0})
  change_reserve token f = do
    found ← gets (λ s. s.reserves token)
    reserve ← or_raise found reserve_not_found
    modify (λ s. record s { reserves = update token (some (f reserve)) s.reserves })

  unfoldable pub add_reserve_collateral : Address → ℕ → Action W (Unit {0})
  add_reserve_collateral token amount =
      change_reserve token
        λ r. record r { total_collateral = saturating_add_u64 r.total_collateral amount }

  unfoldable pub sub_reserve_collateral : Address → ℕ → Action W (Unit {0})
  sub_reserve_collateral token amount =
      change_reserve token λ r. record r { total_collateral = r.total_collateral - amount }

  unfoldable pub add_reserve_borrowed : Address → ℕ → Action W (Unit {0})
  add_reserve_borrowed token amount =
      change_reserve token
        λ r. record r { total_borrowed = saturating_add_u64 r.total_borrowed amount }

  unfoldable pub sub_reserve_borrowed : Address → ℕ → Action W (Unit {0})
  sub_reserve_borrowed token amount =
      change_reserve token λ r. record r { total_borrowed = r.total_borrowed - amount }

  -- The checked sum of the due date and the pool's grace period.
  unfoldable pub grace_period_end : LoanRecord → Action W ℕ
  unfolding get_pool
  grace_period_end loan = do
    pool ← get_pool loan.asset
    or_raise (checked_add_u64 loan.due_date pool.grace_period_seconds) invalid_amount

module _ (x : External) where
  open x use {World}

  -- The world after a cross-contract call, or the error where the call failed.
  abbrev pub outside : (World → Option World) → LendingError → Action World (Unit {0})
  outside call e = do
    after ← gets (λ s. call s.world)
    world ← or_raise after e
    modify (λ s. record s { world = world })

  -- `try_invoke_contract` of the token's `transfer`
  unfoldable pub transfer : Address → Address → Address → ℕ → Action World (Unit {0})
  transfer token from to amount = outside (x.transfer token from to amount) transfer_failed

  -- A cross-contract call through a client, which traps where the called contract fails.
  abbrev pub invoke : (World → Option World) → Action World (Unit {0})
  invoke call = do
    after ← gets (λ s. call s.world)
    world ← unwrap after
    modify (λ s. record s { world = world })
