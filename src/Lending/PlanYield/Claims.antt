-- ===== src/Lending/PlanYield/Claims.antt =====
-- contracts/lending-contract/src/lib.rs: what a claim of a plan's yield pays, and to whom.
use xource_x.Prelude.{
  ℕ, refl, sym, ap, subst, is_some, ◌∙◌, inl, inr, Option-cases, ◌-◌, ◌≤◌, ◌<◌, ◌≡◌, true, false,
  none, some, arith, ◌⊎◌,
}
use xource_x.Prelude.Words.{saturating_add_u32, saturating_add_u64}
use xource_x.Prelude.Dict.{update, update_self}
use xource_x.Prelude.Outcome.{ok, err, OnSuccess}
use xource_x.AccessControl.{Address, Role, holds, require_role, require_not_paused}
use xource_x.Lending.Types.{PlanYieldPosition, PoolState, no_yield_accrued}
use xource_x.Lending.Store.{
  Ledger, Store, require_initialized, ensure_not_paused, get_pool, set_pool,
}
use xource_x.Lending.RateViews.{supply_rate_bps_for}
use xource_x.Lending.PlanYield.{
  check_plan_yield_caller, get_position, set_position, accrued_for_position, claim_plan_yield_inner,
  claim_plan_yield,
}
use xource_x.Lending.PlanYield.Views.{get_accrued_plan_yield}

-- The yield that a pool can pay.
abbrev pub retained_of : {W : Type 0} → Store W → Address → ℕ
retained_of s asset = elim (s.pools asset) [ some pool ↦ pool.retained_yield | none ↦ 0 ]

-- The caller is the linked inheritance contract or an admin.
abbrev pub IsPlanYieldCaller : {W : Type 0} → Store W → Address → Type 0
IsPlanYieldCaller s caller =
    (s.inheritance_contract ≡ some caller) ⊎ (holds Role.admin (s.access.roles caller) ≡ true)

module _ {W : Type 0} (l : Ledger) (s : Store W) where
  pub check_plan_yield_caller_pure :
      (caller : Address)
      → OnSuccess (λ r. (r.1 ≡ s) × IsPlanYieldCaller s caller) (check_plan_yield_caller caller s)
  unfolding check_plan_yield_caller require_role
  check_plan_yield_caller_pure caller = ground arith

  pub accrued_for_position_pure :
      (position : PlanYieldPosition) → OnSuccess (λ r. r.1 ≡ s) (accrued_for_position l position s)
  unfolding accrued_for_position supply_rate_bps_for get_pool
  accrued_for_position_pure position = ground arith

  accrued_for_position_now :
      (position : PlanYieldPosition)
      → position.last_harvest_at ≡ l.timestamp
      → accrued_for_position l position s ≡ ok (0, s)
  unfolding accrued_for_position
  accrued_for_position_now position h = ground arith

-- What a claim of `paid` for a position changes: the pool that it is paid from, and the position.
pub record YieldClaimed {W : Type 0} (l : Ledger) (s t : Store W) (caller : Address)
    (plan_id paid : ℕ) (position : PlanYieldPosition) (pool : PoolState) : Type 0 where
  pub held : s.plan_yields plan_id ≡ some position
  pub found : s.pools position.asset ≡ some pool
  pub allowed : IsPlanYieldCaller s caller
  pub admitted : check_plan_yield_caller caller s ≡ ok (tt, s)
  pub initialized : is_some s.admin ≡ true
  pub running : ensure_not_paused s ≡ ok (tt, s)
  pub active : position.active ≡ true
  pub open_pool : pool.is_paused ≡ false
  pub something : 0 < paid
  pub retained : paid ≤ pool.retained_yield
  pub preview : get_accrued_plan_yield l plan_id s ≡ ok (paid, s)
  pub pools :
      t.pools
      ≡ update position.asset
          (some (record pool { retained_yield = pool.retained_yield - paid }))
          s.pools
  pub positions :
      t.plan_yields
      ≡ update plan_id
          (some (record position {
            last_harvest_at = l.timestamp;
            last_harvest_amount = paid;
            harvest_count = saturating_add_u32 position.harvest_count 1;
            total_harvested = saturating_add_u64 position.total_harvested paid;
          }))
          s.plan_yields
  pub admin : t.admin ≡ s.admin
  pub linked : t.inheritance_contract ≡ s.inheritance_contract
  pub access : t.access ≡ s.access
  pub shares : t.shares ≡ s.shares
  pub loans : t.loans ≡ s.loans
  pub loans_by_id : t.loans_by_id ≡ s.loans_by_id
  pub supported_assets : t.supported_assets ≡ s.supported_assets
  pub world : t.world ≡ s.world

module _ {W : Type 0} (l : Ledger) (s t : Store W) where
  pub claim_plan_yield_inner-YieldClaimed :
      (caller : Address) (plan_id paid : ℕ)
      → claim_plan_yield_inner l caller plan_id s ≡ ok (paid, t)
      → (position : PlanYieldPosition) × (pool : PoolState) × YieldClaimed l s t caller plan_id paid
          position pool
  unfolding claim_plan_yield_inner require_initialized ensure_not_paused get_position get_pool
      set_pool set_position get_accrued_plan_yield
  claim_plan_yield_inner-YieldClaimed caller plan_id paid h =
      let caller_fact = check_plan_yield_caller_pure l s caller in
      elim (Option-cases (s.plan_yields plan_id)) [
        | inl missing ↦ absurd (ground arith)
        | inr (position, held) ↦
            let accrued_fact = accrued_for_position_pure l s position in
            elim (Option-cases (s.pools position.asset)) [
              | inl missing ↦ absurd (ground arith)
              | inr (pool, found) ↦ (position, pool, ground arith)
            ]
      ]

  -- A claim is authorised by its caller, the linked vault or an admin. It pays something, exactly what
  -- `get_accrued_plan_yield` shows beforehand, out of what the pool retains, which covers it. The
  -- position's watermark moves to now. No share, loan, right or token moves.
  pub claim_plan_yield-YieldClaimed :
      (caller : Address) (plan_id paid : ℕ)
      → claim_plan_yield l caller plan_id s ≡ ok (paid, t)
      → (l.authorized caller ≡ true)
        × ((position : PlanYieldPosition) × (pool : PoolState) × YieldClaimed l s t caller plan_id
              paid position pool)
  unfolding claim_plan_yield
  claim_plan_yield-YieldClaimed caller plan_id paid h =
      (ground arith, claim_plan_yield_inner-YieldClaimed caller plan_id paid (ground arith))

  check_plan_yield_caller_kept :
      (caller : Address)
      → t.inheritance_contract ≡ s.inheritance_contract
      → t.access ≡ s.access
      → check_plan_yield_caller caller s ≡ ok (tt, s)
      → check_plan_yield_caller caller t ≡ ok (tt, t)
  unfolding check_plan_yield_caller require_role
  check_plan_yield_caller_kept caller linked access h = ground arith

  ensure_not_paused_kept :
      t.access ≡ s.access → ensure_not_paused s ≡ ok (tt, s) → ensure_not_paused t ≡ ok (tt, t)
  unfolding ensure_not_paused require_not_paused
  ensure_not_paused_kept access h = ground arith

  -- A position whose watermark is now has nothing to claim.
  claim_plan_yield_inner_idle :
      (caller : Address) (plan_id : ℕ) (position : PlanYieldPosition) (pool : PoolState)
      → is_some t.admin ≡ true
      → ensure_not_paused t ≡ ok (tt, t)
      → check_plan_yield_caller caller t ≡ ok (tt, t)
      → t.plan_yields plan_id ≡ some position
      → position.active ≡ true
      → t.pools position.asset ≡ some pool
      → pool.is_paused ≡ false
      → position.last_harvest_at ≡ l.timestamp
      → claim_plan_yield_inner l caller plan_id t ≡ err no_yield_accrued
  unfolding claim_plan_yield_inner require_initialized get_position get_pool
  claim_plan_yield_inner_idle caller plan_id position pool set running allowed held active found
        open_pool now =
      ground (arith, accrued_for_position_now l t position now)

  -- A second claim of the same plan at the same time, by the same caller, has nothing to pay.
  claim_plan_yield_twice :
      (caller : Address) (plan_id paid : ℕ)
      → claim_plan_yield l caller plan_id s ≡ ok (paid, t)
      → claim_plan_yield l caller plan_id t ≡ err no_yield_accrued
  unfolding claim_plan_yield
  claim_plan_yield_twice caller plan_id paid h =
      let (allowed, effect) = claim_plan_yield-YieldClaimed caller plan_id paid h in
      let (position, pool, claimed) = effect in
      let claimed_now = record position {
        last_harvest_at = l.timestamp;
        last_harvest_amount = paid;
        harvest_count = saturating_add_u32 position.harvest_count 1;
        total_harvested = saturating_add_u64 position.total_harvested paid;
      } in
      let paid_pool = record pool { retained_yield = pool.retained_yield - paid } in
      let idle =
        claim_plan_yield_inner_idle caller plan_id claimed_now paid_pool
          (subst (λ a. is_some a ≡ true) (sym claimed.admin) claimed.initialized)
          (ensure_not_paused_kept claimed.access claimed.running)
          (check_plan_yield_caller_kept caller claimed.linked claimed.access claimed.admitted)
          (ap (λ f. f plan_id) claimed.positions
            ∙ update_self plan_id (some claimed_now) s.plan_yields)
          claimed.active
          (ap (λ f. f position.asset) claimed.pools
            ∙ update_self position.asset (some paid_pool) s.pools)
          claimed.open_pool refl in
      ground (arith)
