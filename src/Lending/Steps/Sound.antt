-- ===== src/Lending/Steps/Sound.antt =====
-- The invariant of the lending pool's storage: every pool covers its loans and backs its shares.
use xource_x.Prelude.{
  ℕ, ◌+◌, ◌-◌, ◌≤◌, ◌≡◌, Bool, true, Option, none, some, arith, ◌==◌, if◌then◌else◌, is_some,
}
use xource_x.Prelude.Dict.{sum, sum-insert}
use xource_x.AccessControl.{Address, Role, holds}
use xource_x.Lending.Types.{PoolState, LoanRecord}
use xource_x.Lending.Math.{minimum_liquidity}
use xource_x.Lending.Store.{External, Ledger, Store}
use xource_x.Lending.Admin.{is_listed}
use xource_x.Lending.Pool.Effects.{Deposited, Withdrawn, PriorityWithdrawn, shares_of}
use xource_x.Lending.Loans.Borrow.{Borrowed}
use xource_x.Lending.Loans.Repay.{Repaid}
use xource_x.Lending.Liquidation.Effects.{Liquidated}

-- What holds of an asset: without a pool nobody holds its shares; a pool has lent no more than its
-- deposits, its shares are those of the owners and, once there are any, the locked minimum, and
-- its asset is listed.
abbrev pub PoolIsSound : Option PoolState → ℕ → Bool → Bool → Type 0
PoolIsSound none owned listed initialized = owned ≡ 0
PoolIsSound (some pool) owned listed initialized =
    (pool.total_borrowed ≤ pool.total_deposits)
    × (pool.total_shares ≡ owned + (if pool.total_shares == 0 then 0 else minimum_liquidity))
    × (listed ≡ true)
    × (initialized ≡ true)

-- Every asset is sound, and only an initialized contract has an admin.
pub record IsSound {W : Type 0} (s : Store W) : Type 0 where
  pub pools :
      (a : Address)
      → PoolIsSound
          (s.pools a)
          (sum (s.shares a))
          (is_listed a s.supported_assets)
          (is_some s.admin)
  pub ruled : (a : Address) → holds Role.admin (s.access.roles a) ≡ true → is_some s.admin ≡ true

module _ (x : External) (l : Ledger) (s s' : Store x.World) (user asset : Address) where
  pub Deposited-IsSound :
      (amount minted : ℕ) (pool : PoolState)
      → Deposited x l s s' user asset amount minted pool
      → IsSound s
      → IsSound s'
  Deposited-IsSound amount minted pool d sound = record {
    pools = λ a.
        ground (
          arith,
          sound.pools a,
          sum-insert user (shares_of s asset user + minted) (s.shares asset),
        );
    ruled = λ a h. ground (arith, sound.ruled a);
  }

  pub Withdrawn-IsSound :
      (burned amount : ℕ) (pool : PoolState)
      → Withdrawn x l s s' user asset burned amount pool
      → IsSound s
      → IsSound s'
  Withdrawn-IsSound burned amount pool d sound = record {
    pools = λ a.
        ground (
          arith,
          sound.pools a,
          sum-insert user (shares_of s asset user - burned) (s.shares asset),
        );
    ruled = λ a h. ground (arith, sound.ruled a);
  }

  pub PriorityWithdrawn-IsSound :
      (amount : ℕ) (pool : PoolState)
      → PriorityWithdrawn x l s s' user asset amount pool
      → IsSound s
      → IsSound s'
  PriorityWithdrawn-IsSound amount pool d sound = record {
    pools = λ a. ground (arith, sound.pools a);
    ruled = λ a h. ground (arith, sound.ruled a);
  }

  pub Borrowed-IsSound :
      (amount : ℕ) (token : Address) (collateral duration loan_id : ℕ) (pool : PoolState)
      (loan : LoanRecord) (received minted : x.World)
      → Borrowed x l s s' user asset amount token collateral duration loan_id pool loan received
          minted
      → IsSound s
      → IsSound s'
  Borrowed-IsSound amount token collateral duration loan_id pool loan received minted d sound =
      record {
        pools = λ a. ground (arith, sound.pools a);
        ruled = λ a h. ground (arith, sound.ruled a);
      }

module _ (x : External) (l : Ledger) (s s' : Store x.World) (borrower : Address) where
  pub Repaid-IsSound :
      (total : ℕ) (loan : LoanRecord) (late_fee : ℕ) (pool : PoolState)
      (received returned : x.World)
      → Repaid x l s s' borrower total loan late_fee pool received returned
      → IsSound s
      → IsSound s'
  Repaid-IsSound total loan late_fee pool received returned d sound = record {
    pools = λ a. ground (arith, sound.pools a);
    ruled = λ a h. ground (arith, sound.ruled a);
  }

  pub Liquidated-IsSound :
      (liquidator : Address) (amount seized : ℕ) (loan : LoanRecord) (pool : PoolState)
      (received : x.World)
      → Liquidated x l s s' liquidator borrower amount seized loan pool received
      → IsSound s
      → IsSound s'
  Liquidated-IsSound liquidator amount seized loan pool received d sound = record {
    pools = λ a. ground (arith, sound.pools a);
    ruled = λ a h. ground (arith, sound.ruled a);
  }
