-- ===== src/Lending/RateViews/Supply.antt =====
-- contracts/lending-contract/src/lib.rs: the two computations of the supply rate.
use xource_x.Prelude.{◌≡◌, some, arith}
use xource_x.AccessControl.{Address}
use xource_x.Lending.Math.{interest_numerator}
use xource_x.Lending.Store.{Store, require_initialized, get_pool}
use xource_x.Lending.Terms.{rate_at}
use xource_x.Lending.RateViews.{
  get_borrow_rate, get_supply_rate, reserve_factor_for, supply_rate_bps_for,
}

-- On an initialized store, the supply rate that the plan positions of the primary token earn is the
-- one that `get_supply_rate` shows, with or without a configured rate model.
pub supply_rate_bps_for-get_supply_rate :
    {W : Type 0} (s : Store W) (admin token : Address)
    → s.admin ≡ some admin
    → s.token ≡ some token
    → supply_rate_bps_for token s ≡ get_supply_rate s
unfolding supply_rate_bps_for get_supply_rate get_borrow_rate reserve_factor_for require_initialized
    get_pool rate_at interest_numerator
supply_rate_bps_for-get_supply_rate s admin token set primary = ground arith
