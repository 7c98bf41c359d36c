-- ===== src/Lending/Steps/Reachable.antt =====
-- contracts/lending-contract/src/lib.rs: what every reachable state of the contract satisfies.
use xource_x.Prelude.{ℕ, ◌≡◌, refl, sym, subst, true, List, [], ◌∷◌, ◌++◌, is_some, arith}
use xource_x.Prelude.Outcome.{ok}
use xource_x.AccessControl.{Address}
use xource_x.Lending.Types.{PoolState}
use xource_x.Lending.Store.{External, Ledger, Store}
use xource_x.Lending.Admin.{initialize, add_asset_pool, is_listed}
use xource_x.Lending.Pool.Effects.{
  deposit-Deposited, withdraw-Withdrawn, withdraw_priority-PriorityWithdrawn,
}
use xource_x.Lending.Loans.{emit_interest_accrual}
use xource_x.Lending.Loans.Borrow.{lock_set, borrow-Borrowed}
use xource_x.Lending.Loans.Repay.{repay-Repaid}
use xource_x.Lending.Flash.{Receiver}
use xource_x.Lending.Flash.Effects.{FlashLoaned, flash_fee, flash_loan-FlashLoaned}
use xource_x.Lending.Liquidation.Effects.{liquidate-Liquidated}
use xource_x.Lending.ReserveFund.Effects.{liquidate_bad_debt-WrittenOff}
use xource_x.Lending.Refinance.Effects.{refinance_loan-Refinanced}
use xource_x.Lending.Refinance.Consolidated.{consolidate_loans-Consolidated}
use xource_x.Lending.Refinance.Parts.{split_loan-Parted}
use xource_x.Lending.Upkeep.Books.{apply_upkeep-KeepsTotals}
use xource_x.Lending.Steps.Kept.{
  SameTotals-IsSound, KeepsTotals-IsSound, WrittenOff-IsSound, Refinanced-IsSound,
}
use xource_x.Lending.Steps.{Step, Reach, Setting, admin_of}
use xource_x.Lending.Steps.Sound.{
  IsSound, Deposited-IsSound, Withdrawn-IsSound, PriorityWithdrawn-IsSound, Borrowed-IsSound,
  Repaid-IsSound, Liquidated-IsSound,
}
use xource_x.Lending.Steps.Locked.{
  KeepsLocked, is_listed-++, emit_interest_accrual-events, Reach-KeepsLocked,
}
use xource_x.Lending.Steps.Settings.{Configured, apply_setting-Configured}

is_listed-new :
    (asset : Address) (assets : List Address) → is_listed asset (assets ++ asset ∷ []) ≡ true
unfolding is_listed
is_listed-new asset [] = ground arith
is_listed-new asset (b ∷ rest) = ground (arith, is_listed-new asset rest)

module _ {W : Type 0} (l : Ledger) (s t : Store W) where
  Configured-IsSound : (c : Setting) → Configured l c s t → IsSound s → IsSound t
  Configured-IsSound c d sound = record {
    pools = λ a. ground (arith, sound.pools a, d.books a);
    ruled = λ a h. ground (arith, sound.ruled (admin_of c) d.is_admin);
  }

  initialize-IsSound :
      (admin token : Address) (base_rate multiplier ratio most : ℕ)
      → initialize l admin token base_rate multiplier ratio most s ≡ ok (tt, t)
      → IsSound s
      → IsSound t
  unfolding initialize is_listed
  initialize-IsSound admin token base_rate multiplier ratio most h sound = record {
    pools = λ a. ground (arith, sound.pools a);
    ruled = λ a held. ground arith;
  }

  add_asset_pool-IsSound :
      (admin asset : Address) (base_rate multiplier most : ℕ)
      → add_asset_pool l admin asset base_rate multiplier most s ≡ ok (tt, t)
      → IsSound s
      → IsSound t
  unfolding add_asset_pool
  add_asset_pool-IsSound admin asset base_rate multiplier most h sound = record {
    pools = λ a. ground (
      arith,
      sound.pools a,
      sound.ruled admin,
      is_listed-++ a asset s.supported_assets,
      is_listed-new asset s.supported_assets,
    );
    ruled = λ a held. ground (arith, sound.ruled a);
  }

module _ (x : External) (l : Ledger) (s s' : Store x.World) where
  emit_interest_accrual-IsSound :
      (borrower : Address) (interest : ℕ)
      → emit_interest_accrual x l borrower s ≡ ok (interest, s')
      → IsSound s
      → IsSound s'
  emit_interest_accrual-IsSound borrower interest h sound =
      subst IsSound (sym (emit_interest_accrual-events x l s s' borrower interest h))
        (record { pools = sound.pools; ruled = sound.ruled })

  FlashLoaned-initialized :
      (initiator receiver_id : Address) (receiver : Receiver x) (asset : Address) (amount : ℕ)
      (pool : PoolState) (lent : x.World) (called : Store x.World)
      → FlashLoaned x l s s' initiator receiver_id receiver asset amount pool lent called
      → IsSound s
      → is_some s.admin ≡ true
  FlashLoaned-initialized initiator receiver_id receiver asset amount pool lent called d sound =
      ground (arith, sound.pools asset)

  -- The pool is written back as it was before the callback, with the fee; the callback, under the
  -- lock, cannot have moved a share.
  FlashLoaned-IsSound :
      (initiator receiver_id : Address) (receiver : Receiver x) (asset : Address) (amount : ℕ)
      (pool : PoolState) (lent : x.World) (called : Store x.World)
      → FlashLoaned x l s s' initiator receiver_id receiver asset amount pool lent called
      → KeepsLocked s called
      → IsSound s
      → IsSound called
      → IsSound s'
  FlashLoaned-IsSound initiator receiver_id receiver asset amount pool lent called d keeps before
        sound =
      record {
        pools =
            λ a. ground (arith, before.pools a, sound.pools a, keeps.listed a, keeps.initialized);
        ruled = λ a h. ground (arith, sound.ruled a);
      }

-- A state that `Step`s reach from a sound contract is sound: a pool has lent no more than its
-- deposits, its shares are exactly those of their owners and the locked minimum, and nobody holds
-- shares of an asset without a pool, or the admin role of a contract that is not initialized.
-- Flash-loan callbacks may take any of these steps, and the other contracts may do anything, in any
-- order; a refinancing is a step only while every pool's utilization cap is below 100%.
pub Reach-IsSound : (x : External) {s t : Store x.World} → Reach x s t → IsSound s → IsSound t
Reach-IsSound x Reach.start sound = sound
Reach-IsSound x {t = u} (Reach.after {t = t} r (Step.deposited l user asset amount minted h))
      sound =
    let (p, d) = deposit-Deposited x l user asset amount minted h in
    Deposited-IsSound x l t u user asset amount minted p d (Reach-IsSound x r sound)
Reach-IsSound x {t = u} (Reach.after {t = t} r (Step.withdrawn l user asset burned amount h))
      sound =
    let (p, d) = withdraw-Withdrawn x l user asset burned amount h in
    Withdrawn-IsSound x l t u user asset burned amount p d (Reach-IsSound x r sound)
Reach-IsSound x {t = u}
      (Reach.after {t = t} r (Step.priority_withdrawn l caller asset amount paid h)) sound =
    let (same, (p, d)) = withdraw_priority-PriorityWithdrawn x l caller asset amount paid h in
    PriorityWithdrawn-IsSound x l t u caller asset amount p d (Reach-IsSound x r sound)
Reach-IsSound x {t = u}
      (Reach.after {t = t} r
        (Step.borrowed l borrower asset amount token collateral duration loan_id h))
      sound =
    let (p, loan, received, minted, d) =
      borrow-Borrowed x l borrower asset amount token collateral duration loan_id h in
    Borrowed-IsSound x l t u borrower asset amount token collateral duration loan_id p loan received
      minted d (Reach-IsSound x r sound)
Reach-IsSound x {t = u} (Reach.after {t = t} r (Step.repaid l borrower paid h)) sound =
    let (loan, fee, p, w, w', d) = repay-Repaid x l borrower paid h in
    Repaid-IsSound x l t u borrower paid loan fee p w w' d (Reach-IsSound x r sound)
Reach-IsSound x {t = u}
      (Reach.after {t = t} r (Step.liquidated l liquidator borrower amount seized h)) sound =
    let (loan, p, received, d) = liquidate-Liquidated x l liquidator borrower amount seized h in
    Liquidated-IsSound x l t u borrower liquidator amount seized loan p received d
      (Reach-IsSound x r sound)
Reach-IsSound x {t = u}
      (Reach.after {t = t} r
        (Step.flash_loaned l initiator receiver_id receiver asset amount runs h))
      sound =
    let (p, lent, called, d) =
      flash_loan-FlashLoaned x l initiator receiver_id receiver asset amount h in
    let before = Reach-IsSound x r sound in
    let callback = runs (flash_fee t amount) (record (lock_set t) { world = lent }) called d.ran in
    let entered : IsSound (record (lock_set t) { world = lent }) = record {
      pools = before.pools;
      ruled = before.ruled;
    } in
    let keeps =
      Reach-KeepsLocked x refl
        (FlashLoaned-initialized x l t u initiator receiver_id receiver asset amount p lent called d
          before)
        callback in
    FlashLoaned-IsSound x l t u initiator receiver_id receiver asset amount p lent called d
      (record {
        lock = keeps.lock;
        shares = keeps.shares;
        loans = keeps.loans;
        listed = keeps.listed;
        initialized = keeps.initialized;
      })
      before
      (Reach-IsSound x
        (runs (flash_fee t amount) (record (lock_set t) { world = lent }) called d.ran) entered)
Reach-IsSound x {t = u}
      (Reach.after {t = t} r (Step.initialized l admin token base_rate multiplier ratio most h))
      sound =
    initialize-IsSound l t u admin token base_rate multiplier ratio most h (Reach-IsSound x r sound)
Reach-IsSound x {t = u}
      (Reach.after {t = t} r (Step.added_asset_pool l admin asset base_rate multiplier most h))
      sound =
    add_asset_pool-IsSound l t u admin asset base_rate multiplier most h (Reach-IsSound x r sound)
Reach-IsSound x {t = u} (Reach.after {t = t} r (Step.configured l c h)) sound =
    Configured-IsSound l t u c (apply_setting-Configured l t u c h) (Reach-IsSound x r sound)
Reach-IsSound x {t = u} (Reach.after {t = t} r (Step.accrued l borrower interest h)) sound =
    emit_interest_accrual-IsSound x l t u borrower interest h (Reach-IsSound x r sound)
Reach-IsSound x {t = u} (Reach.after {t = t} r (Step.maintained l c h)) sound =
    KeepsTotals-IsSound t u (apply_upkeep-KeepsTotals x l t u c h) (Reach-IsSound x r sound)
Reach-IsSound x {t = u} (Reach.after {t = t} r (Step.written_off l admin borrower shortfall h))
      sound =
    let (loan, p, d) = liquidate_bad_debt-WrittenOff x l t u admin borrower shortfall h in
    WrittenOff-IsSound x l t u borrower admin shortfall loan p d (Reach-IsSound x r sound)
Reach-IsSound x {t = u}
      (Reach.after {t = t} r (Step.consolidated l borrower loan_ids duration new_id h)) sound =
    let d = consolidate_loans-Consolidated x l t u borrower loan_ids duration new_id h in
    SameTotals-IsSound t u d.4 d.5 d.7 (Reach-IsSound x r sound)
Reach-IsSound x {t = u} (Reach.after {t = t} r (Step.split l borrower amounts ids duration h))
      sound =
    let d = split_loan-Parted x l t u borrower amounts ids duration h in
    SameTotals-IsSound t u d.6 d.7 d.9 (Reach-IsSound x r sound)
Reach-IsSound x {t = u}
      (Reach.after {t = t} r (Step.refinanced l borrower duration new_id capped h)) sound =
    let (loan, p, terms, d) = refinance_loan-Refinanced x l borrower duration new_id h in
    Refinanced-IsSound x l t u borrower duration new_id loan p terms (capped loan.asset p d.found) d
      (Reach-IsSound x r sound)
Reach-IsSound x (Reach.after r (Step.elsewhere w)) sound =
    let before = Reach-IsSound x r sound in record { pools = before.pools; ruled = before.ruled }
