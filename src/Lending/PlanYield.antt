-- ===== src/Lending/PlanYield.antt =====
-- contracts/lending-contract/src/lib.rs: the yield positions of inheritance plans: linking the
-- vault, registration, accrual, claims, and the funding of the yield that is paid.
pub mod Claims
pub mod Batches
pub mod Projection
pub mod Registry
pub mod Views
use xource_x.Prelude.{
  ℕ, ◌-◌, ◌+◌, ◌/◌, min, Bool, true, false, not, ◌||◌, Option, none, some, List, [], ◌∷◌, ◌++◌, ltb,
  leb, ◌==◌, if◌then◌else◌,
}
use xource_x.Prelude.Words.{u64_mod, checked_add_u64, saturating_add_u32, saturating_add_u64}
use xource_x.Prelude.Lists.{length, contains}
use xource_x.Prelude.Outcome.{ok, err, trap, ◌>>=◌, ◌>>◌, pure, gets, modify, raise_if, or_raise}
use xource_x.Prelude.Dict.{update, or_default}
use xource_x.AccessControl.{Address, Role, require_role}
use xource_x.Lending.Types.{
  PlanYieldPosition, unauthorized, invalid_amount, pool_paused, plan_yield_not_registered,
  no_yield_accrued, plan_yield_inactive, invalid_yield_boost, too_many_yield_positions,
  plan_yield_registered, plan_yield_unregistered, plan_yield_boost_set, retained_yield_funded,
  plan_yield_claimed, inheritance_linked, governance_linked,
}
use xource_x.Lending.Math.{interest_numerator, interest_denominator}
use xource_x.Lending.Store.{
  External, Ledger, Action, access_call, emit, require_auth, require_initialized, require_admin,
  ensure_not_paused, get_pool, set_pool, transfer,
}
use xource_x.Lending.RateViews.{supply_rate_bps_for}

abbrev pub max_yield_boost_bps : ℕ
max_yield_boost_bps = 2000

abbrev pub max_plan_yield_positions : ℕ
max_plan_yield_positions = 200

abbrev pub max_yield_claim_batch : ℕ
max_yield_claim_batch = 25

-- `u64::try_from(x).unwrap_or(u64::MAX)`
abbrev pub clamp_u64 : ℕ → ℕ
clamp_u64 x = min x (u64_mod - 1)

module _ {W : Type 0} where
  unfoldable pub set_inheritance_contract : Ledger → Address → Address → Action W (Unit {0})
  unfolding require_admin
  set_inheritance_contract l admin linked = do
    require_admin l admin
    modify (λ s. record s { inheritance_contract = some linked })
    emit (inheritance_linked linked)

  unfoldable pub set_governance_contract : Ledger → Address → Address → Action W (Unit {0})
  unfolding require_admin
  set_governance_contract l admin linked = do
    require_admin l admin
    modify (λ s. record s { governance_contract = some linked })
    emit (governance_linked linked)

  -- The linked inheritance contract, or an admin.
  unfoldable pub check_plan_yield_caller : Address → Action W (Unit {0})
  unfolding require_role
  check_plan_yield_caller caller = do
    linked ← gets (λ s. s.inheritance_contract)
    if elim linked [ some a ↦ a == caller | none ↦ false ]
        then pure tt
        else access_call (require_role caller Role.admin unauthorized)

  unfoldable pub require_plan_yield_caller : Ledger → Address → Action W (Unit {0})
  unfolding check_plan_yield_caller
  require_plan_yield_caller l caller = do require_auth l caller; check_plan_yield_caller caller

  -- The stored position of a plan.
  unfoldable pub get_position : ℕ → Action W PlanYieldPosition
  get_position plan_id = do
    found ← gets (λ s. s.plan_yields plan_id)
    or_raise found plan_yield_not_registered

  unfoldable pub set_position : ℕ → PlanYieldPosition → Action W (Unit {0})
  set_position plan_id position =
      modify (λ s. record s { plan_yields = update plan_id (some position) s.plan_yields })

  -- What a position has earned since its watermark.
  unfoldable pub accrued_for_position : Ledger → PlanYieldPosition → Action W ℕ
  unfolding supply_rate_bps_for
  accrued_for_position l position =
      let elapsed = l.timestamp - position.last_harvest_at in
      if (elapsed == 0) || ((position.principal == 0) || not position.active) then pure 0 else (do
        supply_rate ← supply_rate_bps_for position.asset
        let rate_bps = saturating_add_u32 supply_rate position.boost_bps
        pure (
            if rate_bps == 0
            then 0
            else clamp_u64
                (interest_numerator position.principal rate_bps elapsed / interest_denominator)))

  -- Bounds the plans that ever registered.
  unfoldable pub index_plan_yield : ℕ → Action W (Unit {0})
  unfolding length contains
  index_plan_yield plan_id = do
    index ← gets (λ s. s.plan_yield_index)
    if contains index plan_id then pure tt else (do
      raise_if (leb max_plan_yield_positions (length index)) too_many_yield_positions
      modify (λ s. record s { plan_yield_index = index ++ plan_id ∷ [] }))

  unfoldable pub register_plan_yield : Ledger → Address → ℕ → Address → ℕ → Action W (Unit {0})
  unfolding require_initialized ensure_not_paused require_plan_yield_caller get_pool
      index_plan_yield set_position
  register_plan_yield l caller plan_id asset principal = do
    require_initialized
    ensure_not_paused
    require_plan_yield_caller l caller
    get_pool asset
    existing ← gets (λ s. s.plan_yields plan_id)
    elim existing [
      | some prior ↦ set_position plan_id (record prior {
        asset = asset;
        principal = principal;
        last_harvest_at = l.timestamp;
        active = true;
      })
      | none ↦ (do
        index_plan_yield plan_id
        set_position plan_id (record {
          plan_id = plan_id;
          asset = asset;
          principal = principal;
          last_harvest_at = l.timestamp;
          total_harvested = 0;
          last_harvest_amount = 0;
          harvest_count = 0;
          registered_at = l.timestamp;
          boost_bps = 0;
          active = true;
        }))
    ]
    emit (plan_yield_registered plan_id asset principal l.timestamp)

  unfoldable pub claim_plan_yield_inner : Ledger → Address → ℕ → Action W ℕ
  unfolding require_initialized ensure_not_paused check_plan_yield_caller get_position get_pool
      accrued_for_position set_pool set_position
  claim_plan_yield_inner l caller plan_id = do
    require_initialized
    ensure_not_paused
    check_plan_yield_caller caller
    position ← get_position plan_id
    raise_if (not position.active) plan_yield_inactive
    pool ← get_pool position.asset
    raise_if pool.is_paused pool_paused
    accrued ← accrued_for_position l position
    let payout = min accrued pool.retained_yield
    raise_if (payout == 0) no_yield_accrued
    set_pool position.asset (record pool { retained_yield = pool.retained_yield - payout })
    let total_harvested = saturating_add_u64 position.total_harvested payout
    set_position plan_id (record position {
      last_harvest_at = l.timestamp;
      last_harvest_amount = payout;
      harvest_count = saturating_add_u32 position.harvest_count 1;
      total_harvested = total_harvested;
    })
    emit (plan_yield_claimed plan_id position.asset payout total_harvested l.timestamp)
    pure payout

  unfoldable pub claim_plan_yield : Ledger → Address → ℕ → Action W ℕ
  unfolding claim_plan_yield_inner
  claim_plan_yield l caller plan_id = do
    require_auth l caller
    claim_plan_yield_inner l caller plan_id

  -- `.unwrap_or(0)`: every error of a claim comes before its first write.
  unfoldable pub or_zero : Action W ℕ → Action W ℕ
  or_zero m s = elim (m s) [ ok r ↦ ok r | err e ↦ ok (0, s) | trap ↦ trap ]

  -- The loop of `claim_plan_yield_batch`.
  unfoldable pub claim_each : Ledger → Address → List ℕ → Action W (List ℕ)
  unfolding or_zero
  claim_each l caller [] = pure []
  claim_each l caller (plan_id ∷ rest) = do
    claimed ← or_zero (claim_plan_yield_inner l caller plan_id)
    results ← claim_each l caller rest
    pure (claimed ∷ results)

  unfoldable pub claim_plan_yield_batch : Ledger → Address → List ℕ → Action W (List ℕ)
  unfolding require_initialized ensure_not_paused length claim_each
  claim_plan_yield_batch l caller plan_ids = do
    require_initialized
    ensure_not_paused
    raise_if (ltb max_yield_claim_batch (length plan_ids)) too_many_yield_positions
    require_auth l caller
    claim_each l caller plan_ids

  unfoldable pub unregister_plan_yield : Ledger → Address → ℕ → Action W (Unit {0})
  unfolding require_initialized require_plan_yield_caller get_position set_position
  unregister_plan_yield l caller plan_id = do
    require_initialized
    require_plan_yield_caller l caller
    position ← get_position plan_id
    set_position plan_id (record position { active = false; principal = 0 })
    emit (plan_yield_unregistered plan_id position.asset position.total_harvested l.timestamp)

  unfoldable pub set_plan_yield_boost : Ledger → Address → ℕ → ℕ → Action W (Unit {0})
  unfolding require_initialized require_admin get_position set_position
  set_plan_yield_boost l admin plan_id boost_bps = do
    require_initialized
    require_admin l admin
    raise_if (ltb max_yield_boost_bps boost_bps) invalid_yield_boost
    position ← get_position plan_id
    set_position plan_id (record position { boost_bps = boost_bps })
    emit (plan_yield_boost_set plan_id position.boost_bps boost_bps)

module _ (x : External) where
  open x use {World}

  unfoldable pub fund_retained_yield : Ledger → Address → Address → ℕ → Action World ℕ
  unfolding require_initialized ensure_not_paused require_plan_yield_caller get_pool set_pool
      transfer
  fund_retained_yield l funder asset amount = do
    require_initialized
    ensure_not_paused
    require_plan_yield_caller l funder
    raise_if (amount == 0) invalid_amount
    pool ← get_pool asset
    transfer x asset funder l.contract_id amount
    balance ← or_raise (checked_add_u64 pool.retained_yield amount) invalid_amount
    set_pool asset (record pool { retained_yield = balance })
    emit (retained_yield_funded asset funder amount balance)
    pure balance
