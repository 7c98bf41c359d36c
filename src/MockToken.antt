-- ===== src/MockToken.antt =====
-- contracts/mock-token/src/lib.rs: the fungible token of the test suites, whose balances are i128.
pub mod Supply
pub mod Transfer
mod Tests
use xource_x.Prelude.{
  ℕ, Bool, true, false, not, Option, none, some, List, [], ◌∷◌, ◌==◌, if◌then◌else◌,
}
use xource_x.Prelude.Int.{ℤ, pos, ◌+ℤ◌, ◌-ℤ◌, ltb_ℤ, checked_add_i128}
use xource_x.Prelude.Outcome.{
  Contract, ◌>>=◌, ◌>>◌, pure, gets, modify, raise_if, panic_if, or_raise,
}
use xource_x.Prelude.Dict.{Dict, lookup, insert, or_default}
use xource_x.AccessControl.{Address}

abbrev pub max_supply : ℤ
max_supply = pos 1_000_000_000_000_000_000

pub data ContractError : Type 0 where
  negative_amount insufficient_balance overflow exceeds_max_supply : ContractError

pub record Token : Type 0 where
  pub balances : Dict ℤ
  -- an absent key reads as 0
  pub total_supply : ℤ

abbrev pub Call : Type 0 → Type 0
Call = Contract Token ContractError

abbrev pub balance_of : Token → Address → ℤ
balance_of s id = or_default (pos 0) (lookup id s.balances)

abbrev set_balance : Address → ℤ → Call (Unit {0})
set_balance id v = modify (λ s. record s { balances = insert id v s.balances })

unfoldable pub balance : Address → Call ℤ
balance id = gets (λ s. balance_of s id)

-- `authorized` says which addresses authorised the call.
module _ (authorized : Address → Bool) where
  -- Both balances are read before either is written.
  unfoldable pub transfer : Address → Address → ℤ → Call (Unit {0})
  unfolding balance
  transfer from to amount = do
    panic_if (not (authorized from))
    raise_if (ltb_ℤ amount (pos 0)) negative_amount
    balance_from ← balance from
    balance_to ← balance to
    raise_if (ltb_ℤ balance_from amount) insufficient_balance
    credited ← or_raise (checked_add_i128 balance_to amount) overflow
    set_balance from (balance_from -ℤ amount)
    set_balance to credited

  unfoldable pub burn : Address → ℤ → Call (Unit {0})
  unfolding balance
  burn from amount = do
    panic_if (not (authorized from))
    raise_if (ltb_ℤ amount (pos 0)) negative_amount
    held ← balance from
    total_supply ← gets (λ s. s.total_supply)
    raise_if (ltb_ℤ held amount) insufficient_balance
    raise_if (ltb_ℤ total_supply amount) insufficient_balance
    set_balance from (held -ℤ amount)
    modify (λ s. record s { total_supply = total_supply -ℤ amount })

-- Anyone may mint.
unfoldable pub mint : Address → ℤ → Call (Unit {0})
unfolding balance
mint to amount = do
  raise_if (ltb_ℤ amount (pos 0)) negative_amount
  held ← balance to
  total_supply ← gets (λ s. s.total_supply)
  new_total ← or_raise (checked_add_i128 total_supply amount) overflow
  raise_if (ltb_ℤ max_supply new_total) exceeds_max_supply
  credited ← or_raise (checked_add_i128 held amount) overflow
  set_balance to credited
  modify (λ s. record s { total_supply = new_total })
