-- ===== src/Lending/PlanYield/Projection.antt =====
-- contracts/lending-contract/src/lib.rs: the projection of a plan's yield against what it accrues.
use xource_x.Prelude.{ℕ, ◌-◌, ◌≡◌, true, some, is_some, arith}
use xource_x.Prelude.Outcome.{ok}
use xource_x.AccessControl.{Address}
use xource_x.Lending.Types.{PlanYieldPosition}
use xource_x.Lending.Store.{Ledger, Store, require_initialized, get_pool}
use xource_x.Lending.RateViews.{supply_rate_bps_for}
use xource_x.Lending.PlanYield.{accrued_for_position, get_position}
use xource_x.Lending.PlanYield.Views.{simulate_plan_yield, get_plan_yield_rate, project_plan_yield}

-- For an active position of an initialized contract, the projection over the time since the last
-- harvest is what the position has accrued, before the cap by what the pool retains.
pub project_plan_yield-accrued_for_position :
    {W : Type 0} (l : Ledger) (s t : Store W) (admin : Address) (plan_id accrued : ℕ)
    (position : PlanYieldPosition)
    → s.admin ≡ some admin
    → s.plan_yields plan_id ≡ some position
    → position.active ≡ true
    → is_some (s.pools position.asset) ≡ true
    → accrued_for_position l position s ≡ ok (accrued, t)
    → project_plan_yield plan_id (l.timestamp - position.last_harvest_at) s ≡ ok (accrued, s)
unfolding project_plan_yield get_plan_yield_rate simulate_plan_yield accrued_for_position
    supply_rate_bps_for get_pool get_position require_initialized
project_plan_yield-accrued_for_position l s t admin plan_id accrued position set held active found
      h =
    ground arith
