-- ===== src/PlanVault/Tests.antt =====
-- A vault over a single balance, and the witnesses of its theorems.
use xource_x.Prelude.{ℕ, ◌-◌, ◌<◌, ◌≡◌, refl, true, false, none, some, leb, ◌==◌, if◌then◌else◌}
use xource_x.Prelude.Int.{pos}
use xource_x.Prelude.Outcome.{Outcome, ok, err, trap}
use xource_x.AccessControl.{Address}
use xource_x.PlanVault.{
  Tokens, Vault, Caller, PlanVaultError, bad_amt, tx_fail, unauth, initialize, release,
}
use xource_x.PlanVault.Release.{VaultStep, release-lem}

-- The tokens of the vault are one number, and a transfer lowers it.
abbrev purse : Tokens
purse = record {
  World = ℕ;
  transfer = λ token from to amount w. if leb amount w then some (w - amount) else none;
  balance = λ token id w. pos w;
}

abbrev controller_7 : Caller
controller_7 = record { authorized = λ a. a == 7; vault_address = 100 }

abbrev fresh : Vault ℕ
fresh = record { init = false; controller = none; owner = none; plan_id = none; world = 1_000 }

abbrev after : Vault ℕ → Outcome PlanVaultError ((Unit {0}) × Vault ℕ) → Vault ℕ
after s (ok r) = r.1
after s (err e) = s
after s trap = s

abbrev ready : Vault ℕ
unfolding initialize
ready = after fresh (initialize 7 3 1 fresh)

abbrev paid : Vault ℕ
unfolding release
paid = after ready (release purse controller_7 9 4 250 ready)

release_too_much : release purse controller_7 9 4 1_001 ready ≡ err tx_fail
unfolding initialize release
release_too_much = refl

release_nothing : release purse controller_7 9 4 0 ready ≡ err bad_amt
unfolding initialize release
release_nothing = refl

release_before_initialize : release purse controller_7 9 4 250 fresh ≡ err unauth
unfolding release
release_before_initialize = refl

release-lem_example :
    (controller : Address) × (ready.controller ≡ some controller)
    × (controller_7.authorized controller ≡ true)
    × (0 < 250)
    × (purse.transfer 9 100 4 250 ready.world ≡ some paid.world)
    × (paid ≡ record ready { world = paid.world })
unfolding initialize release
release-lem_example = release-lem purse controller_7 9 4 250 ready paid refl

released : VaultStep purse ready paid
unfolding initialize release
released = VaultStep.released controller_7 9 4 250 refl
