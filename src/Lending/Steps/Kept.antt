-- ===== src/Lending/Steps/Kept.antt =====
-- contracts/lending-contract/src/lib.rs: the steps that change loans, reserves or fees keep the pools
-- sound.
use xource_x.Prelude.{
  ℕ, ◌+◌, ◌-◌, ◌*◌, ◌/◌, ◌≤◌, ◌<◌, ◌≡◌, inl, inr, arith, ap, ◌∙◌, ltb, Bool-cases, ltb→lt,
  ltb_false→le,
}
use native.Mathlib.Nat.{mul-div_right}
use xource_x.AccessControl.{Address}
use xource_x.Lending.Types.{PoolState, LoanRecord}
use xource_x.Lending.Math.{get_utilization_bps}
use xource_x.Lending.Store.{External, Ledger, Store}
use xource_x.Lending.Pool.Effects.{KeepsListing}
use xource_x.Lending.Pool.Totals.{SameTotals}
use xource_x.Lending.ReserveFund.Effects.{WrittenOff}
use xource_x.Lending.Refinance.{RefinanceTerms}
use xource_x.Lending.Refinance.Effects.{Refinanced}
use xource_x.Lending.Upkeep.Books.{KeepsTotals}
use xource_x.Lending.Steps.Sound.{IsSound}

utilization_full :
    (borrowed deposits : ℕ) → deposits < borrowed → get_utilization_bps borrowed deposits ≡ 10_000
unfolding get_utilization_bps
utilization_full borrowed deposits h =
    let lent : (deposits - borrowed) + borrowed ≡ borrowed = omega arith in
    let ratio : borrowed * 10_000 / ((deposits - borrowed) + borrowed) ≡ 10_000 =
      ap (λ d. borrowed * 10_000 / d) lent ∙ mul-div_right 10_000 (omega arith) in
    ground arith

-- Below a utilization of 100% the borrowings are covered.
utilization_covered :
    (borrowed deposits : ℕ) → get_utilization_bps borrowed deposits < 10_000 → borrowed ≤ deposits
utilization_covered borrowed deposits h = elim (Bool-cases (ltb deposits borrowed)) [
  | inl over ↦
      absurd (ground (arith, utilization_full borrowed deposits (ltb→lt deposits borrowed over)))
  | inr covered ↦ ltb_false→le deposits borrowed covered
]

module _ {W : Type 0} (s t : Store W) where
  -- A call that keeps the totals, the shares and the listing keeps the contract sound.
  pub SameTotals-IsSound :
      ((a : Address) → SameTotals (s.pools a) (t.pools a))
      → t.shares ≡ s.shares
      → KeepsListing s t
      → IsSound s
      → IsSound t
  SameTotals-IsSound totals shares listing sound = record {
    pools = λ a. ground (arith, sound.pools a, totals a);
    ruled = λ a h. ground (arith, sound.ruled a);
  }

  pub KeepsTotals-IsSound : KeepsTotals s t → IsSound s → IsSound t
  KeepsTotals-IsSound kept sound = record {
    pools = λ a. ground (arith, sound.pools a, kept.pools a);
    ruled = λ a h. ground (arith, sound.ruled a);
  }

module _ (x : External) (l : Ledger) (s s' : Store x.World) (borrower : Address) where
  pub WrittenOff-IsSound :
      (admin : Address) (shortfall : ℕ) (loan : LoanRecord) (pool : PoolState)
      → WrittenOff x l s s' admin borrower shortfall loan pool
      → IsSound s
      → IsSound s'
  WrittenOff-IsSound admin shortfall loan pool d sound = record {
    pools = λ a. ground (arith, sound.pools a);
    ruled = λ a h. ground (arith, sound.ruled a);
  }

  pub Refinanced-IsSound :
      (duration new_id : ℕ) (loan : LoanRecord) (pool : PoolState) (terms : RefinanceTerms)
      → pool.utilization_cap_bps < 10_000
      → Refinanced x l s s' borrower duration new_id loan pool terms
      → IsSound s
      → IsSound s'
  Refinanced-IsSound duration new_id loan pool terms capped d sound = record {
    pools = λ a. ground (
      arith,
      sound.pools a,
      utilization_covered (pool.total_borrowed + (terms.new_principal - loan.principal))
          pool.total_deposits,
    );
    ruled = λ a h. ground (arith, sound.ruled a);
  }
