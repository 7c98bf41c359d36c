-- ===== src/PlanVault/Release.antt =====
-- Who may take tokens out of a vault, and that its controller is set once.
use xource_x.Prelude.{ℕ, ◌<◌, ◌≡◌, Option-cases, inl, inr, true, some, arith}
use xource_x.Prelude.Outcome.{ok, err}
use xource_x.AccessControl.{Address}
use xource_x.PlanVault.{Tokens, Vault, Caller, unauth, initialize, release}

-- A call of the vault.
pub data VaultStep (tokens : Tokens) : Vault tokens.World → Vault tokens.World → Type 0 where
  initialized :
      (controller owner : Address) (plan_id : ℕ) {s t : Vault tokens.World}
      → initialize controller owner plan_id s ≡ ok (tt, t)
      → VaultStep tokens s t
  released :
      (c : Caller) (token recipient : Address) (amount : ℕ) {s t : Vault tokens.World}
      → release tokens c token recipient amount s ≡ ok (tt, t)
      → VaultStep tokens s t

module _ (tokens : Tokens) where
  open tokens use {World}

  -- Tokens leave the vault only by a call that its controller has authorised, for an amount above 0,
  -- in one transfer from the vault to the recipient; nothing else is stored.
  pub release-lem :
      (c : Caller) (token recipient : Address) (amount : ℕ) (s t : Vault World)
      → release tokens c token recipient amount s ≡ ok (tt, t)
      → (controller : Address) × (s.controller ≡ some controller)
        × (c.authorized controller ≡ true)
        × (0 < amount)
        × (tokens.transfer token c.vault_address recipient amount s.world ≡ some t.world)
        × (t ≡ record s { world = t.world })
  unfolding release
  release-lem c token recipient amount s t h = elim (Option-cases s.controller) [
    | inl missing ↦ absurd (ground arith)
    | inr (controller, found) ↦
        (controller, found, ground arith, ground arith, ground arith, ground arith)
  ]

  -- An initialized vault keeps its controller, owner and plan, whatever is called, and refuses to be
  -- initialized again.
  pub VaultStep-keeps :
      {s t : Vault World}
      → VaultStep tokens s t
      → s.init ≡ true
      → (t.init ≡ true)
        × (t.controller ≡ s.controller)
        × (t.owner ≡ s.owner)
        × (t.plan_id ≡ s.plan_id)
        × ((controller owner : Address) (plan_id : ℕ)
            → initialize controller owner plan_id t ≡ err unauth)
  unfolding initialize release
  VaultStep-keeps {s} {t} (VaultStep.initialized controller owner plan_id h) done =
      absurd (ground arith)
  VaultStep-keeps {s} {t} (VaultStep.released c token recipient amount h) done = (
    ground arith,
    ground arith,
    ground arith,
    ground arith,
    λ controller owner plan_id. ground arith,
  )
