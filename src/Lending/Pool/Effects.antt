-- ===== src/Lending/Pool/Effects.antt =====
-- The whole effect of a successful `deposit`, `withdraw` and `withdraw_priority`, and what each
-- of them demands of its caller.
use xource_x.Prelude.{
  ℕ, ◌+◌, ◌-◌, ◌≤◌, ◌<◌, ◌≡◌, inl, inr, Option-cases, true, false, some, arith, ◌==◌, if◌then◌else◌,
}
use xource_x.Prelude.Outcome.{ok}
use xource_x.Prelude.Dict.{lookup, insert, update, or_default}
use xource_x.AccessControl.{Address}
use xource_x.Lending.Types.{PoolState}
use xource_x.Lending.Math.{minimum_liquidity, shares_for_deposit, assets_for_shares}
use xource_x.Lending.Store.{External, Ledger, Store}
use xource_x.Lending.Pool.{available, deposit, withdraw, withdraw_priority}

-- The shares that an owner holds in an asset's pool.
abbrev pub shares_of : {W : Type 0} → Store W → Address → Address → ℕ
shares_of s asset owner = or_default 0 (lookup owner (s.shares asset))

-- The shares that the first deposit locks.
abbrev pub locked : PoolState → ℕ
locked pool = if pool.total_shares == 0 then minimum_liquidity else 0

module _ {W : Type 0} (s : Store W) (l : Ledger) where
  -- The call was admitted: not paused, not re-entered, authorised by the user.
  pub record Admitted (user : Address) : Type 0 where
    pub running : s.access.paused ≡ false
    pub unlocked : s.access.reentrancy_lock ≡ false
    pub authorized : l.authorized user ≡ true

-- The call did not change which assets have a pool, nor who holds a role.
pub record KeepsListing {W : Type 0} (s s' : Store W) : Type 0 where
  pub admin : s'.admin ≡ s.admin
  pub supported_assets : s'.supported_assets ≡ s.supported_assets
  pub roles : s'.access.roles ≡ s.access.roles

-- What a call on one asset's pool leaves as it was.
pub record KeepsRest {W : Type 0} (s s' : Store W) : Type 0 where
  pub loans : s'.loans ≡ s.loans
  pub loans_by_id : s'.loans_by_id ≡ s.loans_by_id
  pub user_loans : s'.user_loans ≡ s.user_loans
  pub next_loan_id : s'.next_loan_id ≡ s.next_loan_id
  pub reserves : s'.reserves ≡ s.reserves
  pub unlocked : s'.access.reentrancy_lock ≡ false
  pub listing : KeepsListing s s'

module _ (x : External) (l : Ledger) (s s' : Store x.World) where
  open x use {World}

  -- A deposit of `amount` for `minted` shares, where `pool` was stored.
  pub record Deposited (depositor asset : Address) (amount minted : ℕ) (pool : PoolState)
      : Type 0 where
    pub admitted : Admitted s l depositor
    pub found : s.pools asset ≡ some pool
    pub active : pool.is_paused ≡ false
    pub moved : x.transfer asset depositor l.contract_id amount s.world ≡ some s'.world
    pub some_amount : 0 < amount
    pub some_minted : 0 < minted
    pub minted_locked : minted + locked pool ≡ shares_for_deposit pool amount
    pub pools :
        s'.pools
        ≡ update asset
            (some (record pool {
              total_deposits = pool.total_deposits + amount;
              total_shares = pool.total_shares + locked pool + minted;
            }))
            s.pools
    pub shares :
        s'.shares
        ≡ update asset
            (insert depositor (shares_of s asset depositor + minted) (s.shares asset))
            s.shares
    pub stamped : s'.deposit_ledgers asset depositor ≡ some l.sequence
    pub rest : KeepsRest s s'

  -- A withdrawal of `amount` for `burned` shares.
  pub record Withdrawn (depositor asset : Address) (burned amount : ℕ) (pool : PoolState)
      : Type 0 where
    pub admitted : Admitted s l depositor
    pub found : s.pools asset ≡ some pool
    pub active : pool.is_paused ≡ false
    pub moved : x.transfer asset l.contract_id depositor amount s.world ≡ some s'.world
    pub some_burned : 0 < burned
    pub some_amount : 0 < amount
    pub owned : burned ≤ shares_of s asset depositor
    pub worth : amount ≡ assets_for_shares pool burned
    pub liquid : amount ≤ available pool
    pub issued : burned ≤ pool.total_shares
    pub pools :
        s'.pools
        ≡ update asset
            (some (record pool {
              total_deposits = pool.total_deposits - amount;
              total_shares = pool.total_shares - burned;
            }))
            s.pools
    pub shares :
        s'.shares
        ≡ update asset
            (insert depositor (shares_of s asset depositor - burned) (s.shares asset))
            s.shares
    pub rest : KeepsRest s s'

  -- A payment of `amount` out of the retained yield.
  pub record PriorityWithdrawn (caller asset : Address) (amount : ℕ) (pool : PoolState)
      : Type 0 where
    pub admitted : Admitted s l caller
    pub found : s.pools asset ≡ some pool
    pub moved : x.transfer asset l.contract_id caller amount s.world ≡ some s'.world
    pub some_amount : 0 < amount
    pub covered : amount ≤ pool.retained_yield
    pub pools :
        s'.pools
        ≡ update asset
            (some (record pool { retained_yield = pool.retained_yield - amount }))
            s.pools
    pub shares : s'.shares ≡ s.shares
    pub rest : KeepsRest s s'

module _ (x : External) (l : Ledger) {s s' : Store x.World} where
  open x use {World}

  deposit-KeepsRest :
      (depositor asset : Address) (amount minted : ℕ)
      → deposit x l depositor asset amount s ≡ ok (minted, s')
      → KeepsRest s s'
  unfolding deposit
  deposit-KeepsRest depositor asset amount minted h = ground arith

  -- A successful deposit was admitted, moved the amount into the contract, and minted the shares
  -- that the formula gives less those that a first deposit locks; it changed that pool's totals and
  -- the depositor's shares by these amounts, stamped the depositor's ledger, and released the lock.
  pub deposit-Deposited :
      (depositor asset : Address) (amount minted : ℕ)
      → deposit x l depositor asset amount s ≡ ok (minted, s')
      → (pool : PoolState) × Deposited x l s s' depositor asset amount minted pool
  unfolding deposit
  deposit-Deposited depositor asset amount minted h = elim (Option-cases (s.pools asset)) [
    | inl missing ↦ absurd (ground arith)
    | inr (pool, found) ↦
        let rest = deposit-KeepsRest depositor asset amount minted h in (pool, ground arith)
  ]

  -- A successful withdrawal was admitted, paid what the shares are worth out of the liquid part of
  -- the pool, burned exactly these shares, held by the depositor, and released the lock.
  pub withdraw-Withdrawn :
      (depositor asset : Address) (burned amount : ℕ)
      → withdraw x l depositor asset burned s ≡ ok (amount, s')
      → (pool : PoolState) × Withdrawn x l s s' depositor asset burned amount pool
  unfolding withdraw
  withdraw-Withdrawn depositor asset burned amount h = elim (Option-cases (s.pools asset)) [
    | inl missing ↦ absurd (ground arith)
    | inr (pool, found) ↦ (pool, ground arith)
  ]

  -- A successful priority withdrawal took the requested amount from the retained yield alone.
  pub withdraw_priority-PriorityWithdrawn :
      (caller asset : Address) (amount paid : ℕ)
      → withdraw_priority x l caller asset amount s ≡ ok (paid, s')
      → (paid ≡ amount) × ((pool : PoolState) × PriorityWithdrawn x l s s' caller asset amount pool)
  unfolding withdraw_priority
  withdraw_priority-PriorityWithdrawn caller asset amount paid h =
      elim (Option-cases (s.pools asset)) [
        | inl missing ↦ absurd (ground arith)
        | inr (pool, found) ↦ (ground arith, (pool, ground arith))
      ]
