-- ===== src/Lending/Flash/Effects.antt =====
-- What a successful flash loan has ensured, and that its receiver runs with the lock held.
use xource_x.Prelude.{ℕ, ◌+◌, ◌≤◌, ◌<◌, ◌≡◌, inl, inr, Option-cases, true, false, some, arith}
use xource_x.Prelude.Words.{as_u64, mul_div_u128}
use xource_x.Prelude.Outcome.{ok}
use xource_x.Prelude.Dict.{update, or_default}
use xource_x.AccessControl.{Address}
use xource_x.Lending.Types.{PoolState}
use xource_x.Lending.Math.{get_utilization_bps}
use xource_x.Lending.Store.{External, Ledger, Store}
use xource_x.Lending.Pool.{available}
use xource_x.Lending.Pool.Effects.{KeepsListing}
use xource_x.Lending.Flash.{Receiver, flash_loan, flash_loan_inner}
use xource_x.Lending.Loans.Borrow.{lock_set}

-- The fee of a flash loan.
abbrev pub flash_fee : {W : Type 0} → Store W → ℕ → ℕ
flash_fee s amount = as_u64 (mul_div_u128 amount (or_default 9 s.flash_loan_fee_bps) 10000)

module _ (x : External) (l : Ledger) (s s' : Store x.World) where
  open x use {World}

  -- A flash loan of `amount`, where `pool` was stored, `lent` was the world once the receiver had
  -- the tokens and `called` the storages that its callback left.
  pub record FlashLoaned (initiator receiver_id : Address) (receiver : Receiver x) (asset : Address)
      (amount : ℕ) (pool : PoolState) (lent : World) (called : Store World) : Type 0 where
    pub authorized : l.authorized initiator ≡ true
    pub whitelisted : s.flash_receivers receiver_id ≡ true
    pub unlocked : s.access.reentrancy_lock ≡ false
    pub found : s.pools asset ≡ some pool
    pub active : pool.is_paused ≡ false
    pub some_amount : 0 < amount
    pub liquid : amount ≤ available pool
    pub capped :
        get_utilization_bps (pool.total_borrowed + amount) pool.total_deposits
        ≤ pool.utilization_cap_bps
    pub paid_out : x.transfer asset l.contract_id receiver_id amount s.world ≡ some lent
    pub ran :
        receiver amount (flash_fee s amount) initiator (record (lock_set s) { world = lent })
        ≡ some called
    pub repaid :
        x.balance asset l.contract_id s.world + flash_fee s amount
        ≤ x.balance asset l.contract_id s'.world
    pub pools :
        s'.pools
        ≡ update asset
            (some (record pool { total_deposits = pool.total_deposits + flash_fee s amount }))
            called.pools
    pub others : s'.shares ≡ called.shares
    pub listing : KeepsListing called s'
    pub released : s'.access.reentrancy_lock ≡ false

module _ (x : External) (l : Ledger) {s s' : Store x.World} where
  -- A successful flash loan was authorised and went to a whitelisted receiver, whose callback ran
  -- with the reentrancy lock set; afterwards the contract holds at least what it held before, and the
  -- fee, which is booked to the deposits. The lock is released.
  pub flash_loan-FlashLoaned :
      (initiator receiver_id : Address) (receiver : Receiver x) (asset : Address) (amount : ℕ)
      → flash_loan x l initiator receiver_id receiver asset amount s ≡ ok (tt, s')
      → (pool : PoolState) × (lent : x.World) × (called : Store x.World) × FlashLoaned x l s s'
          initiator receiver_id receiver asset amount pool lent called
  unfolding flash_loan flash_loan_inner
  flash_loan-FlashLoaned initiator receiver_id receiver asset amount h =
      elim (Option-cases (s.pools asset)) [
        | inl missing ↦ absurd (ground arith)
        | inr (pool, found) ↦
            elim (Option-cases (x.transfer asset l.contract_id receiver_id amount s.world)) [
              | inl refused ↦ absurd (ground arith)
              | inr (lent, paid_out) ↦
                  elim (Option-cases (
                    receiver amount (flash_fee s amount) initiator
                      (record (lock_set s) { world = lent }))) [
                        | inl stopped ↦ absurd (ground arith)
                        | inr (called, ran) ↦ (pool, lent, called, ground arith)
                      ]
            ]
      ]
