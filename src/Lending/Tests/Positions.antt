-- ===== src/Lending/Tests/Positions.antt =====
-- Runs of the yield positions of inheritance plans.
use xource_x.Prelude.{
  ℕ, ◌+◌, ◌≤◌, ◌≡◌, refl, true, false, none, some, arith, [], ◌∷◌, List, ◌==◌, if◌then◌else◌,
}
use xource_x.Prelude.Lists.{length, contains}
use xource_x.Prelude.Outcome.{ok, Returns}
use xource_x.Lending.Types.{PoolState, PlanYieldPosition}
use xource_x.Lending.Math.{get_utilization_bps, calculate_dynamic_rate, interest_numerator}
use xource_x.Lending.Store.{Store, ensure_not_paused}
use xource_x.Lending.RateViews.{supply_rate_bps_for}
use xource_x.Lending.PlanYield.{
  claim_plan_yield, claim_plan_yield_inner, claim_plan_yield_batch, claim_each, or_zero,
  register_plan_yield, accrued_for_position, max_yield_claim_batch,
}
use xource_x.Lending.PlanYield.Claims.{YieldClaimed, retained_of, claim_plan_yield-YieldClaimed}
use xource_x.Lending.PlanYield.Batches.{
  asset_at, paid_from, claim_plan_yield_batch-Paid, claim_plan_yield_batch-Returns,
}
use xource_x.Lending.PlanYield.Registry.{
  IndexIsSound, has_no_duplicates, register_plan_yield-IndexIsSound,
}
use xource_x.Lending.PlanYield.Views.{project_plan_yield}
use xource_x.Lending.PlanYield.Projection.{project_plan_yield-accrued_for_position}
use xource_x.Lending.Tests.Setup.{mock, ledger, store, after}

-- The position of plan 5, which the linked vault 60 has registered at time 0.
abbrev position : PlanYieldPosition
position = record {
  plan_id = 5;
  asset = 9;
  principal = 30_000_000;
  last_harvest_at = 0;
  total_harvested = 0;
  last_harvest_amount = 0;
  harvest_count = 0;
  registered_at = 0;
  boost_bps = 2_000;
  active = true;
}

abbrev plans : Store mock.World
plans = record store {
  inheritance_contract = some 60;
  plan_yields = λ i. elim (i == 5) [ true ↦ some position | false ↦ none ];
  plan_yield_index = 5 ∷ [];
}

abbrev harvested : Store mock.World
unfolding claim_plan_yield claim_plan_yield_inner
harvested = after plans (claim_plan_yield ledger 60 5 plans)

harvest_pays : claim_plan_yield ledger 60 5 plans ≡ ok (190, harvested)
unfolding claim_plan_yield claim_plan_yield_inner accrued_for_position supply_rate_bps_for
    get_utilization_bps calculate_dynamic_rate interest_numerator
harvest_pays = refl

claim_plan_yield-YieldClaimed_example :
    (ledger.authorized 60 ≡ true)
    × ((p : PlanYieldPosition) × (pool : PoolState) × YieldClaimed ledger plans harvested 60 5 190 p
          pool)
claim_plan_yield-YieldClaimed_example =
    claim_plan_yield-YieldClaimed ledger plans harvested 60 5 190 harvest_pays

-- A batch that names plan 5 twice and the unknown plan 6.
abbrev batch : List ℕ
batch = 5 ∷ 6 ∷ 5 ∷ []

abbrev swept : Store mock.World
unfolding claim_plan_yield_batch claim_each or_zero claim_plan_yield_inner
swept = after plans (claim_plan_yield_batch ledger 60 batch plans)

sweep_pays : claim_plan_yield_batch ledger 60 batch plans ≡ ok (190 ∷ 0 ∷ 0 ∷ [], swept)
unfolding claim_plan_yield_batch claim_each or_zero claim_plan_yield_inner accrued_for_position
    supply_rate_bps_for get_utilization_bps calculate_dynamic_rate interest_numerator length
sweep_pays = refl

claim_plan_yield_batch-Paid_example :
    (ledger.authorized 60 ≡ true)
    × (length {A = ℕ} (190 ∷ 0 ∷ 0 ∷ []) ≡ length batch)
    × (length batch ≤ max_yield_claim_batch)
    × (paid_from (asset_at plans) 9 batch (190 ∷ 0 ∷ 0 ∷ []) + retained_of swept 9
        ≡ retained_of plans 9)
claim_plan_yield_batch-Paid_example =
    claim_plan_yield_batch-Paid ledger 60 9 batch (190 ∷ 0 ∷ 0 ∷ []) plans swept sweep_pays

batch_is_short : length batch ≤ max_yield_claim_batch
unfolding length
batch_is_short = omega arith

claim_plan_yield_batch-Returns_example :
    Returns
      (λ results t. length results ≡ length batch)
      (claim_plan_yield_batch ledger 60 batch plans)
unfolding ensure_not_paused
claim_plan_yield_batch-Returns_example =
    claim_plan_yield_batch-Returns ledger 60 batch plans refl refl refl batch_is_short

plans-IndexIsSound : IndexIsSound plans
unfolding length contains has_no_duplicates
plans-IndexIsSound = record { bounded = omega arith; distinct = refl; listed = λ i h. ground arith }

abbrev registered : Store mock.World
unfolding register_plan_yield
registered = after plans (register_plan_yield ledger 60 6 9 500 plans)

plan_registered : register_plan_yield ledger 60 6 9 500 plans ≡ ok (tt, registered)
unfolding register_plan_yield contains length
plan_registered = refl

register_plan_yield-IndexIsSound_example :
    IndexIsSound registered
    × ((j : ℕ)
        → contains registered.plan_yield_index j
          ≡ (if 6 == j then true else contains plans.plan_yield_index j))
register_plan_yield-IndexIsSound_example =
    register_plan_yield-IndexIsSound ledger plans registered 60 6 9 500 plans-IndexIsSound
      plan_registered

plan_accrues : accrued_for_position ledger position plans ≡ ok (190, plans)
unfolding accrued_for_position supply_rate_bps_for get_utilization_bps calculate_dynamic_rate
    interest_numerator
plan_accrues = refl

project_plan_yield-accrued_for_position_example : project_plan_yield 5 1_000 plans ≡ ok (190, plans)
project_plan_yield-accrued_for_position_example =
    project_plan_yield-accrued_for_position ledger plans plans 7 5 190 position refl refl refl refl
      plan_accrues
