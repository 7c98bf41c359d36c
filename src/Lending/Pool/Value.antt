-- ===== src/Lending/Pool/Value.antt =====
-- The value of a share: neither a deposit nor a withdrawal lowers it, and depositing gains nothing.
use xource_x.Prelude.{ℕ, ◌+◌, ◌*◌, ◌≤◌, ◌<◌, ◌≡◌, arith, some, ◌⊎◌, inl, inr}
use native.Mathlib.Nat.{le_trans, mul-le-mul_right, le_of_mul-le-mul_right}
use xource_x.Prelude.Words.{mul_div_u128, mul_div_u128-le, as_u64-mul-le}
use xource_x.Prelude.Outcome.{ok}
use xource_x.AccessControl.{Address}
use xource_x.Lending.Types.{PoolState}
use xource_x.Lending.Math.{shares_for_deposit, assets_for_shares}
use xource_x.Lending.Store.{External, Ledger, Store}
use xource_x.Lending.Pool.{deposit, withdraw}
use xource_x.Lending.Pool.Effects.{Deposited, Withdrawn, deposit-Deposited, withdraw-Withdrawn}

shares_for_deposit-le :
    (pool : PoolState) (amount : ℕ)
    → 0 < pool.total_shares
    → shares_for_deposit pool amount * pool.total_deposits ≤ amount * pool.total_shares
unfolding shares_for_deposit
shares_for_deposit-le pool amount h = ground (
  arith,
  as_u64-mul-le (mul_div_u128 amount pool.total_shares pool.total_deposits) pool.total_deposits
      (amount * pool.total_shares) (mul_div_u128-le amount pool.total_shares pool.total_deposits),
)

assets_for_shares-le :
    (pool : PoolState) (shares : ℕ)
    → assets_for_shares pool shares * pool.total_shares ≤ shares * pool.total_deposits
unfolding assets_for_shares
assets_for_shares-le pool shares = ground (
  arith,
  as_u64-mul-le (mul_div_u128 shares pool.total_deposits pool.total_shares) pool.total_shares
      (shares * pool.total_deposits) (mul_div_u128-le shares pool.total_deposits pool.total_shares),
)

burn_keeps_value : (a b d s : ℕ) → a * (s + b) ≤ b * (d + a) → (d + a) * s ≤ d * (s + b)
burn_keeps_value a b d s h = omega arith

return_le :
    (r m n a d s : ℕ) → m ≤ n → n * d ≤ a * s → 0 < s + n → r * (s + n) ≤ m * (d + a) → r ≤ a
return_le r m n a d s h k p q =
    le_of_mul-le-mul_right {k = s + n}
      (le_trans q (le_trans (mul-le-mul_right (d + a) h) (omega (arith, k)))) p

-- The totals of a pool after a deposit and after a withdrawal.
module _ (x : External) (l : Ledger) (s s' : Store x.World) (user asset : Address) where
  Deposited-totals :
      (amount minted : ℕ) (pool pool' p : PoolState)
      → s.pools asset ≡ some pool
      → s'.pools asset ≡ some pool'
      → Deposited x l s s' user asset amount minted p
      → (pool'.total_deposits ≡ pool.total_deposits + amount)
        × (pool'.total_shares ≡ pool.total_shares + shares_for_deposit pool amount)
        × (minted ≤ shares_for_deposit pool amount)
  Deposited-totals amount minted pool pool' p found found' d = ground arith

  Withdrawn-totals :
      (burned amount : ℕ) (pool pool' p : PoolState)
      → s.pools asset ≡ some pool
      → s'.pools asset ≡ some pool'
      → Withdrawn x l s s' user asset burned amount p
      → (pool'.total_deposits + amount ≡ pool.total_deposits)
        × (pool'.total_shares + burned ≡ pool.total_shares)
        × (amount ≡ assets_for_shares pool burned)
  Withdrawn-totals burned amount pool pool' p found found' w = ground arith

module _ (x : External) (l : Ledger) (s s' : Store x.World) where
  -- A deposit into a pool with shares never lowers the value of a share: deposits per share,
  -- cross-multiplied, are at least what they were.
  pub deposit-share_value :
      (depositor asset : Address) (amount minted : ℕ) (pool pool' : PoolState)
      → s.pools asset ≡ some pool
      → s'.pools asset ≡ some pool'
      → 0 < pool.total_shares
      → deposit x l depositor asset amount s ≡ ok (minted, s')
      → pool.total_deposits * pool'.total_shares ≤ pool'.total_deposits * pool.total_shares
  deposit-share_value depositor asset amount minted pool pool' found found' issued h =
      let (p, d) = deposit-Deposited x l depositor asset amount minted h in
      let (deposits, shares, _) =
        Deposited-totals x l s s' depositor asset amount minted pool pool' p found found' d in
      rw (deposits, shares) (omega (arith, shares_for_deposit-le pool amount issued))

  -- Nor does a withdrawal.
  pub withdraw-share_value :
      (depositor asset : Address) (burned amount : ℕ) (pool pool' : PoolState)
      → s.pools asset ≡ some pool
      → s'.pools asset ≡ some pool'
      → withdraw x l depositor asset burned s ≡ ok (amount, s')
      → pool.total_deposits * pool'.total_shares ≤ pool'.total_deposits * pool.total_shares
  withdraw-share_value depositor asset burned amount pool pool' found found' h =
      let (p, w) = withdraw-Withdrawn x l depositor asset burned amount h in
      let (deposits, shares, worth) =
        Withdrawn-totals x l s s' depositor asset burned amount pool pool' p found found' w in
      let paid_value : amount * (pool'.total_shares + burned)
          ≤ burned * (pool'.total_deposits + amount) =
        rw (shares, deposits, worth) (assets_for_shares-le pool burned) in
      rw (← deposits, ← shares)
        (burn_keeps_value amount burned pool'.total_deposits pool'.total_shares paid_value)

  module _ (t : Store x.World) (l' : Ledger) where
    -- Where the pool has shares, or has no deposits, depositing and then withdrawing all the minted
    -- shares, with nothing in between, returns no more than was deposited.
    pub withdraw-deposit-le :
        (user asset : Address) (amount minted returned : ℕ) (pool : PoolState)
        → s.pools asset ≡ some pool
        → 0 < pool.total_shares ⊎ pool.total_deposits ≡ 0
        → deposit x l user asset amount s ≡ ok (minted, s')
        → withdraw x l' user asset minted s' ≡ ok (returned, t)
        → returned ≤ amount
    withdraw-deposit-le user asset amount minted returned pool found fresh dep wit =
        let (p, d) = deposit-Deposited x l user asset amount minted dep in
        let (pool', w) = withdraw-Withdrawn x l' user asset minted returned wit in
        let (deposits, shares, at_most) =
          Deposited-totals x l s s' user asset amount minted pool pool' p found w.found d in
        let bound : shares_for_deposit pool amount * pool.total_deposits
            ≤ amount * pool.total_shares =
          elim fresh [
            | inl issued ↦ shares_for_deposit-le pool amount issued
            | inr empty ↦ rw empty (omega arith)
          ] in
        let worth : returned * pool'.total_shares ≤ minted * pool'.total_deposits =
          rw w.worth (assets_for_shares-le pool' minted) in
        return_le returned minted (shares_for_deposit pool amount) amount pool.total_deposits
          pool.total_shares at_most bound (omega (arith, d.some_minted))
          (rw (← deposits, ← shares) worth)
