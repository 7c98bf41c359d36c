-- ===== src/Lending/Steps/Locked.antt =====
-- contracts/lending-contract/src/lib.rs: what can happen while an entry point holds the reentrancy
-- lock: settings, new pools and bookkeeping, but nothing that moves shares or opens a loan.
use xource_x.Prelude.{
  ℕ, ◌≡◌, refl, ap, ◌∙◌, ◌⊎◌, inl, none, true, List, [], ◌∷◌, ◌++◌, arith, is_some,
}
use xource_x.Prelude.Outcome.{ok}
use xource_x.AccessControl.{Address}
use xource_x.Lending.Store.{External, Ledger, Store}
use xource_x.Lending.Admin.{initialize, add_asset_pool, is_listed}
use xource_x.Lending.Pool.Effects.{
  deposit-Deposited, withdraw-Withdrawn, withdraw_priority-PriorityWithdrawn,
}
use xource_x.Lending.Loans.{emit_interest_accrual}
use xource_x.Lending.Loans.Borrow.{borrow-Borrowed}
use xource_x.Lending.Loans.Repay.{repay-Repaid}
use xource_x.Lending.Flash.Effects.{flash_loan-FlashLoaned}
use xource_x.Lending.Liquidation.Effects.{liquidate-Liquidated}
use xource_x.Lending.ReserveFund.Effects.{liquidate_bad_debt-WrittenOff}
use xource_x.Lending.Refinance.Effects.{refinance_loan-Refinanced}
use xource_x.Lending.Refinance.Consolidated.{consolidate_loans-Consolidated}
use xource_x.Lending.Refinance.Parts.{split_loan-Parted}
use xource_x.Lending.Upkeep.Books.{apply_upkeep-KeepsTotals}
use xource_x.Lending.Steps.{Step, Reach, Setting}
use xource_x.Lending.Steps.Settings.{Configured, apply_setting-Configured}

pub is_listed-++ :
    (a asset : Address) (assets : List Address)
    → is_listed a assets ≡ true
    → is_listed a (assets ++ asset ∷ []) ≡ true
unfolding is_listed
is_listed-++ a asset [] h = ground arith
is_listed-++ a asset (b ∷ rest) h = ground (arith, is_listed-++ a asset rest)

-- What a locked state keeps: the lock, the shares, the loans, which may only be closed, and the assets
-- that are listed.
pub record KeepsLocked {W : Type 0} (s t : Store W) : Type 0 where
  pub lock : t.access.reentrancy_lock ≡ true
  pub shares : t.shares ≡ s.shares
  pub loans : (b : Address) → (t.loans b ≡ s.loans b) ⊎ (t.loans b ≡ none)
  pub listed :
      (a : Address) → is_listed a s.supported_assets ≡ true → is_listed a t.supported_assets ≡ true
  pub initialized : is_some s.admin ≡ true → is_some t.admin ≡ true

module _ {W : Type 0} (l : Ledger) (s t : Store W) where
  add_asset_pool-KeepsLocked :
      (admin asset : Address) (base_rate multiplier most : ℕ)
      → s.access.reentrancy_lock ≡ true
      → add_asset_pool l admin asset base_rate multiplier most s ≡ ok (tt, t)
      → KeepsLocked s t
  unfolding add_asset_pool
  add_asset_pool-KeepsLocked admin asset base_rate multiplier most locked h = record {
    lock = ground arith;
    shares = ground arith;
    loans = λ b. ground arith;
    listed = λ a listed. ground (arith, is_listed-++ a asset s.supported_assets listed);
    initialized = ground arith;
  }

  initialize-KeepsLocked :
      (admin token : Address) (base_rate multiplier ratio most : ℕ)
      → s.access.reentrancy_lock ≡ true
      → is_some s.admin ≡ true
      → initialize l admin token base_rate multiplier ratio most s ≡ ok (tt, t)
      → KeepsLocked s t
  unfolding initialize
  initialize-KeepsLocked admin token base_rate multiplier ratio most locked done h = ground arith

  Configured-KeepsLocked :
      (c : Setting) → s.access.reentrancy_lock ≡ true → Configured l c s t → KeepsLocked s t
  Configured-KeepsLocked c locked d = ground arith

module _ (x : External) (l : Ledger) (s t : Store x.World) where
  -- Publishing the accrued interest writes nothing but the event.
  pub emit_interest_accrual-events :
      (borrower : Address) (interest : ℕ)
      → emit_interest_accrual x l borrower s ≡ ok (interest, t)
      → t ≡ record s { events = t.events }
  unfolding emit_interest_accrual
  emit_interest_accrual-events borrower interest h = ground arith

  emit_interest_accrual-KeepsLocked :
      (borrower : Address) (interest : ℕ)
      → s.access.reentrancy_lock ≡ true
      → emit_interest_accrual x l borrower s ≡ ok (interest, t)
      → KeepsLocked s t
  emit_interest_accrual-KeepsLocked borrower interest locked h =
      ground (arith, emit_interest_accrual-events borrower interest h)

module _ (x : External) where
  -- While the lock is held, no step moves a share or opens or changes a loan, and none gives the lock
  -- back; a write-off may close a loan.
  pub Step-KeepsLocked :
      {s t : Store x.World}
      → s.access.reentrancy_lock ≡ true
      → is_some s.admin ≡ true
      → Step x s t
      → KeepsLocked s t
  Step-KeepsLocked locked done (Step.deposited l user asset amount minted h) =
      let (p, d) = deposit-Deposited x l user asset amount minted h in
      absurd (ground (arith, d.admitted.unlocked))
  Step-KeepsLocked locked done (Step.withdrawn l user asset burned amount h) =
      let (p, d) = withdraw-Withdrawn x l user asset burned amount h in
      absurd (ground (arith, d.admitted.unlocked))
  Step-KeepsLocked locked done (Step.priority_withdrawn l caller asset amount paid h) =
      let (same, (p, d)) = withdraw_priority-PriorityWithdrawn x l caller asset amount paid h in
      absurd (ground (arith, d.admitted.unlocked))
  Step-KeepsLocked locked done
        (Step.borrowed l borrower asset amount token collateral duration loan_id h) =
      let (p, loan, received, minted, d) =
        borrow-Borrowed x l borrower asset amount token collateral duration loan_id h in
      absurd (ground (arith, d.admitted.unlocked))
  Step-KeepsLocked locked done (Step.repaid l borrower paid h) =
      let (loan, fee, p, w, w', d) = repay-Repaid x l borrower paid h in
      absurd (ground (arith, d.admitted.unlocked))
  Step-KeepsLocked locked done (Step.liquidated l liquidator borrower amount seized h) =
      let (loan, p, received, d) = liquidate-Liquidated x l liquidator borrower amount seized h in
      absurd (ground (arith, d.not_reentered))
  Step-KeepsLocked locked done
        (Step.flash_loaned l initiator receiver_id receiver asset amount runs h) =
      let (p, lent, called, d) =
        flash_loan-FlashLoaned x l initiator receiver_id receiver asset amount h in
      absurd (ground (arith, d.unlocked))
  Step-KeepsLocked {s} {t} locked done
        (Step.initialized l admin token base_rate multiplier ratio most h) =
      initialize-KeepsLocked l s t admin token base_rate multiplier ratio most locked done h
  Step-KeepsLocked {s} {t} locked done
        (Step.added_asset_pool l admin asset base_rate multiplier most h) =
      add_asset_pool-KeepsLocked l s t admin asset base_rate multiplier most locked h
  Step-KeepsLocked {s} {t} locked done (Step.configured l c h) =
      Configured-KeepsLocked l s t c locked (apply_setting-Configured l s t c h)
  Step-KeepsLocked {s} {t} locked done (Step.accrued l borrower interest h) =
      emit_interest_accrual-KeepsLocked x l s t borrower interest locked h
  Step-KeepsLocked {s} {t} locked done (Step.maintained l c h) =
      let kept = apply_upkeep-KeepsTotals x l s t c h in
      record {
        lock = ap (λ a. a.reentrancy_lock) kept.access ∙ locked;
        shares = kept.shares;
        loans = λ b. inl (ap (λ f. f b) kept.loans);
        listed = λ a h. ground (arith, kept.supported_assets);
        initialized = λ h. ground (arith, kept.admin);
      }
  Step-KeepsLocked {s} {t} locked done (Step.written_off l admin borrower shortfall h) =
      let (loan, pool, d) = liquidate_bad_debt-WrittenOff x l s t admin borrower shortfall h in
      record {
        lock = ap (λ a. a.reentrancy_lock) d.access ∙ locked;
        shares = d.shares;
        loans = λ b. ground (arith, d.closed);
        listed = λ a h. ground (arith, d.assets_kept);
        initialized = λ h. ground (arith, d.admin_kept);
      }
  Step-KeepsLocked {s} {t} locked done (Step.consolidated l borrower loan_ids duration new_id h) =
      let d = consolidate_loans-Consolidated x l s t borrower loan_ids duration new_id h in
      absurd (ground (arith, d.1))
  Step-KeepsLocked {s} {t} locked done (Step.split l borrower amounts ids duration h) =
      absurd (ground (arith, split_loan-Parted x l s t borrower amounts ids duration h))
  Step-KeepsLocked {s} {t} locked done (Step.refinanced l borrower duration new_id capped h) =
      let (loan, pool, terms, d) = refinance_loan-Refinanced x l borrower duration new_id h in
      absurd (ground (arith, d.not_reentered))
  Step-KeepsLocked locked done (Step.elsewhere w) = record {
    lock = locked;
    shares = refl;
    loans = λ b. inl refl;
    listed = λ a h. h;
    initialized = λ h. h;
  }

  KeepsLocked-trans : {s t u : Store x.World} → KeepsLocked s t → KeepsLocked t u → KeepsLocked s u
  KeepsLocked-trans p q = record {
    lock = q.lock;
    shares = q.shares ∙ p.shares;
    loans = λ b. ground (arith, p.loans b, q.loans b);
    listed = λ a h. q.listed a (p.listed a h);
    initialized = λ h. q.initialized (p.initialized h);
  }

  -- Whatever steps an initialized contract takes while an entry point holds the lock, in any order,
  -- they move no share, leave every borrower's open loan as it is or close it, delist no asset, and
  -- the lock is still held at the end.
  pub Reach-KeepsLocked :
      {s t : Store x.World}
      → s.access.reentrancy_lock ≡ true
      → is_some s.admin ≡ true
      → Reach x s t
      → KeepsLocked s t
  Reach-KeepsLocked locked done Reach.start = record {
    lock = locked;
    shares = refl;
    loans = λ b. inl refl;
    listed = λ a h. h;
    initialized = λ h. h;
  }
  Reach-KeepsLocked locked done (Reach.after r step) =
      let p = Reach-KeepsLocked locked done r in
      KeepsLocked-trans p (Step-KeepsLocked p.lock (p.initialized done) step)
