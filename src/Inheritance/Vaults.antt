-- ===== src/Inheritance/Vaults.antt =====
-- contracts/inheritance-contract/src/lib.rs: calls of other contracts, and the vault of a plan.
use xource_x.Prelude.{ℕ, Option, some}
use xource_x.Prelude.Outcome.{◌>>=◌, ◌>>◌, pure, gets, modify, or_raise, unwrap}
use xource_x.Prelude.Dict.{update, or_default}
use xource_x.AccessControl.{Address}
use xource_x.Inheritance.Types.{InheritanceError, vault_not_found, fee_transfer_failed}
use xource_x.Inheritance.Store.{External, Ledger, Action}

module _ (x : External) where
  open x use {World}

  -- `try_invoke_contract`, whose failure is the error.
  abbrev pub outside : (World → Option World) → InheritanceError → Action World (Unit {0})
  outside call e = do
    after ← gets (λ s. call s.world)
    world ← or_raise after e
    modify (λ s. record s { world = world })

  -- `let _ = try_invoke_contract(…)`: a failure is ignored.
  abbrev pub outside_ignored : (World → Option World) → Action World (Unit {0})
  outside_ignored call = modify (λ s. record s { world = or_default s.world (call s.world) })

  unfoldable pub deploy_plan_vault : Ledger → ℕ → Address → Action World Address
  deploy_plan_vault l plan_id owner = do
    configured ← gets (λ s. s.vault_wasm)
    wasm ← or_raise configured vault_not_found
    deployed ← gets (λ s. x.deploy wasm plan_id s.world)
    made ← unwrap deployed
    modify (λ s. record s { world = made.1 })
    outside (x.initialize made.0 l.contract_id owner plan_id) fee_transfer_failed
    modify (λ s. record s { plan_vaults = update plan_id (some made.0) s.plan_vaults })
    pure made.0

  unfoldable pub require_plan_vault : ℕ → Action World Address
  require_plan_vault plan_id = do
    found ← gets (λ s. s.plan_vaults plan_id)
    or_raise found vault_not_found

  unfoldable pub release_from_plan_vault : ℕ → Address → Address → ℕ → Action World (Unit {0})
  unfolding require_plan_vault
  release_from_plan_vault plan_id token recipient amount = do
    vault ← require_plan_vault plan_id
    outside (x.release vault token recipient amount) fee_transfer_failed
