-- ===== src/PlanVault.antt =====
-- contracts/plan-vault/src/lib.rs: the vault that holds a plan's tokens for its controller.
pub mod Release
mod Tests
use xource_x.Prelude.{ℕ, Bool, true, false, not, Option, none, some, ◌==◌}
use xource_x.Prelude.Int.{ℤ}
use xource_x.Prelude.Outcome.{◌>>=◌, ◌>>◌, Contract, gets, modify, raise_if, panic_if, or_raise}
use xource_x.AccessControl.{Address}

pub data PlanVaultError : Type 0 where
  unauth bad_amt tx_fail : PlanVaultError

-- The tokens that the vault pays out: `World` is all that they store, and a transfer that fails is
-- `none`. A transfer names token, sender, receiver and amount.
pub record Tokens : Type 1 where
  pub World : Type 0
  pub transfer : Address → Address → Address → ℕ → World → Option World
  pub balance : Address → Address → World → ℤ

-- A field for each key of `PlanVaultKey`, and what the tokens store.
pub record Vault (World : Type 0) : Type 0 where
  pub init : Bool
  pub controller : Option Address
  pub owner : Option Address
  pub plan_id : Option ℕ
  pub world : World

-- Who authorised the call, and the vault's own address.
pub record Caller : Type 0 where
  pub authorized : Address → Bool
  pub vault_address : Address

abbrev pub VaultCall : Type 0 → Type 0 → Type 0
VaultCall W = Contract (Vault W) PlanVaultError

module _ {W : Type 0} where
  unfoldable pub initialize : Address → Address → ℕ → VaultCall W (Unit {0})
  initialize controller owner plan_id = do
    done ← gets (λ s. s.init)
    raise_if done unauth
    modify (λ s. record s {
      init = true;
      controller = some controller;
      owner = some owner;
      plan_id = some plan_id;
    })

module _ (tokens : Tokens) where
  open tokens use {World}

  unfoldable pub release : Caller → Address → Address → ℕ → VaultCall World (Unit {0})
  release c token recipient amount = do
    raise_if (amount == 0) bad_amt
    found ← gets (λ s. s.controller)
    controller ← or_raise found unauth
    panic_if (not (c.authorized controller))
    after ← gets (λ s. tokens.transfer token c.vault_address recipient amount s.world)
    world ← or_raise after tx_fail
    modify (λ s. record s { world = world })

  unfoldable pub vault_balance : Caller → Address → Vault World → ℤ
  vault_balance c token s = tokens.balance token c.vault_address s.world
