-- ===== src/AccessControl/Tests.antt =====
-- Runs of the access-control library.
use xource_x.Prelude.{ℕ, ◌≡◌, refl, none}
use xource_x.Prelude.Outcome.{err}
use xource_x.AccessControl.{empty_access, check_contract_version}

version_window : check_contract_version {E = ℕ} (λ a. none) 3 1 2 9 empty_access ≡ err 9
unfolding check_contract_version
version_window = refl
