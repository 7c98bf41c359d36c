-- ===== src/Lending/Pool/Totals.antt =====
-- contracts/lending-contract/src/lib.rs: calls that change a pool's yield and reserves only.
use xource_x.Prelude.{◌≡◌, Option, none, some}
use xource_x.Lending.Types.{PoolState}

-- The yield, the reserves and the reserve factor of a pool may change; what it holds, owes and has
-- issued, and its cap, may not.
abbrev pub SameTotals : Option PoolState → Option PoolState → Type 0
SameTotals none none = Unit
SameTotals none (some q) = ⊥
SameTotals (some p) none = ⊥
SameTotals (some p) (some q) = q ≡ record p {
  retained_yield = q.retained_yield;
  bad_debt_reserve = q.bad_debt_reserve;
  reserve_factor_bps = q.reserve_factor_bps;
  total_protocol_revenue = q.total_protocol_revenue;
}
