-- ===== src/Lending/PlanYield/Batches.antt =====
-- contracts/lending-contract/src/lib.rs: claims for several plans in one call.
use xource_x.Prelude.{
  ℕ, refl, Option-cases, is_some, ◌∙◌, inl, inr, ◌+◌, ◌≤◌, ◌≡◌, true, some, none, List, [], ◌∷◌,
  arith, ◌==◌, if◌then◌else◌,
}
use xource_x.Prelude.Lists.{length}
use xource_x.Prelude.Outcome.{ok, Outcome-cases, >>=-eq-ok, ◌>>=◌, pure, Returns, Answers}
use xource_x.AccessControl.{Address, require_not_paused, require_role}
use xource_x.Lending.Types.{PlanYieldPosition}
use xource_x.Lending.Store.{
  Ledger, Store, require_initialized, ensure_not_paused, get_pool, set_pool,
}
use xource_x.Lending.PlanYield.{
  max_yield_claim_batch, or_zero, claim_each, claim_plan_yield_inner, claim_plan_yield_batch,
  check_plan_yield_caller, get_position, set_position, accrued_for_position,
}
use xource_x.Lending.RateViews.{supply_rate_bps_for}
use xource_x.Lending.PlanYield.Claims.{
  retained_of, accrued_for_position_pure, check_plan_yield_caller_pure,
  claim_plan_yield_inner-YieldClaimed,
}

-- The asset of a plan's position.
abbrev pub asset_at : {W : Type 0} → Store W → ℕ → Address
asset_at s plan_id = elim (s.plan_yields plan_id) [ some position ↦ position.asset | none ↦ 0 ]

-- What a batch paid out of one asset's pool, where the plans' positions are of these assets.
unfoldable pub paid_from : (ℕ → Address) → Address → List ℕ → List ℕ → ℕ
paid_from assets asset [] results = 0
paid_from assets asset (plan_id ∷ rest) [] = 0
paid_from assets asset (plan_id ∷ rest) (paid ∷ results) =
    (if assets plan_id == asset then paid else 0) + paid_from assets asset rest results

module _ {W : Type 0} (l : Ledger) (caller : Address) where
  -- One plan's turn in a batch: it is paid out of its own pool, or gets 0 and changes nothing.
  or_zero-Paid :
      (plan_id paid : ℕ) (s t : Store W)
      → or_zero (claim_plan_yield_inner l caller plan_id) s ≡ ok (paid, t)
      → ((j : ℕ) → asset_at t j ≡ asset_at s j)
        × ((asset : Address)
            → (if asset_at s plan_id == asset then paid else 0) + retained_of t asset
              ≡ retained_of s asset)
  unfolding or_zero
  or_zero-Paid plan_id paid s t h =
      elim (Outcome-cases (claim_plan_yield_inner l caller plan_id s)) [
        | inl ((again, u), claims) ↦
            let (position, pool, claimed) =
              claim_plan_yield_inner-YieldClaimed l s t caller plan_id paid (ground arith) in
            (λ j. ground arith, λ asset. ground arith)
        | inr fails ↦ (λ j. ground arith, λ asset. ground arith)
      ]

  claim_each-Paid :
      (assets : ℕ → Address) (asset : Address) (plan_ids results : List ℕ) (s t : Store W)
      → ((j : ℕ) → asset_at s j ≡ assets j)
      → claim_each l caller plan_ids s ≡ ok (results, t)
      → (length results ≡ length plan_ids)
        × (paid_from assets asset plan_ids results + retained_of t asset ≡ retained_of s asset)
  unfolding claim_each length paid_from
  claim_each-Paid assets asset [] results s t same h = ground arith
  claim_each-Paid assets asset (plan_id ∷ rest) results s t same h =
      let (paid, u, first, more) =
        >>=-eq-ok (or_zero (claim_plan_yield_inner l caller plan_id))
          (λ paid. claim_each l caller rest >>= λ results. pure (paid ∷ results)) s h in
      let (others, v, later, last) =
        >>=-eq-ok (claim_each l caller rest) (λ results. pure (paid ∷ results)) u more in
      let (kept, here) = or_zero-Paid plan_id paid s u first in
      ground (
        arith,
        same plan_id,
        here asset,
        claim_each-Paid assets asset rest others u v (λ j. kept j ∙ same j) later,
      )

  -- A batch answers each plan in turn, and pays out of an asset's pool exactly what the pool's
  -- retained yield has fallen by: no more than it held. A batch has at most 25 plans.
  pub claim_plan_yield_batch-Paid :
      (asset : Address) (plan_ids results : List ℕ) (s t : Store W)
      → claim_plan_yield_batch l caller plan_ids s ≡ ok (results, t)
      → (l.authorized caller ≡ true)
        × (length results ≡ length plan_ids)
        × (length plan_ids ≤ max_yield_claim_batch)
        × (paid_from (asset_at s) asset plan_ids results + retained_of t asset
            ≡ retained_of s asset)
  unfolding claim_plan_yield_batch require_initialized ensure_not_paused
  claim_plan_yield_batch-Paid asset plan_ids results s t h =
      let each =
        claim_each-Paid (asset_at s) asset plan_ids results s t (λ j. refl) (ground arith) in
      ground arith

  accrued_for_position-Answers :
      (position : PlanYieldPosition) (s : Store W) → Answers (accrued_for_position l position s)
  unfolding accrued_for_position supply_rate_bps_for get_pool
  accrued_for_position-Answers position s = ground arith

  check_plan_yield_caller-Answers : (s : Store W) → Answers (check_plan_yield_caller caller s)
  unfolding check_plan_yield_caller require_role
  check_plan_yield_caller-Answers s = ground arith

  claim_plan_yield_inner-Answers :
      (plan_id : ℕ) (s : Store W) → Answers (claim_plan_yield_inner l caller plan_id s)
  unfolding claim_plan_yield_inner require_initialized ensure_not_paused require_not_paused
      get_position get_pool set_pool set_position
  claim_plan_yield_inner-Answers plan_id s =
      let caller_fact = check_plan_yield_caller_pure l s caller in
      let caller_answers = check_plan_yield_caller-Answers s in
      elim (Option-cases (s.plan_yields plan_id)) [
        | inl missing ↦ ground arith
        | inr (position, held) ↦
            ground (
              arith,
              accrued_for_position_pure l s position,
              accrued_for_position-Answers position s,
            )
      ]

  claim_each-Returns :
      (plan_ids : List ℕ) (s : Store W)
      → Returns (λ results t. length results ≡ length plan_ids) (claim_each l caller plan_ids s)
  unfolding claim_each or_zero length
  claim_each-Returns [] s = ground arith
  claim_each-Returns (plan_id ∷ rest) s =
      elim (Outcome-cases (claim_plan_yield_inner l caller plan_id s)) [
        | inl ((paid, t), claims) ↦ ground (arith, claim_each-Returns rest t)
        | inr (inl (e, fails)) ↦ ground (arith, claim_each-Returns rest s)
        | inr (inr traps) ↦ absurd (ground (arith, claim_plan_yield_inner-Answers plan_id s))
      ]

  -- On an initialized contract that is not paused, an authorised batch of at most 25 plans always
  -- succeeds, with one answer for each plan: no plan, registered or not, idle or not, can block it.
  pub claim_plan_yield_batch-Returns :
      (plan_ids : List ℕ) (s : Store W)
      → is_some s.admin ≡ true
      → ensure_not_paused s ≡ ok (tt, s)
      → l.authorized caller ≡ true
      → length plan_ids ≤ max_yield_claim_batch
      → Returns
          (λ results t. length results ≡ length plan_ids)
          (claim_plan_yield_batch l caller plan_ids s)
  unfolding claim_plan_yield_batch require_initialized
  claim_plan_yield_batch-Returns plan_ids s set running allowed few =
      ground (arith, claim_each-Returns plan_ids s)
