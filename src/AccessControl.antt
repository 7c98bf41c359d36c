-- ===== src/AccessControl.antt =====
-- contracts/access-control/src/lib.rs: the library of roles, blacklist, reentrancy lock, pause
-- switch and contract version that every contract links. Its keys are a part of each contract's
-- own storage. A removed key reads as its default, so a flag is a Boolean and a role list a list.
-- `ActiveOps` is an i128 that starts at 0 and is never set below 1: a natural below 2 ^ 127.
pub mod Roles
pub mod Locks
mod Tests
use xource_x.Prelude.{
  ℕ, ◌+◌, ◌-◌, ◌^◌, Bool, true, false, not, ◌&&◌, ◌||◌, Option, none, some, List, [], ◌∷◌, ◌++◌,
  ltb, leb, ◌==◌, if◌then◌else◌,
}
use xource_x.Prelude.Outcome.{
  Contract, ◌>>=◌, ◌>>◌, pure, gets, modify, raise, raise_if, panic, panic_if,
}
use xource_x.Prelude.Dict.{update, or_default}

-- An address is only compared.
abbrev pub Address : Type 0
Address = ℕ

pub data Role : Type 0 where
  admin guardian beneficiary owner : Role

abbrev pub role_eq : Role → Role → Bool
role_eq admin admin = true
role_eq guardian guardian = true
role_eq beneficiary beneficiary = true
role_eq owner owner = true
role_eq _ _ = false

pub record AccessStore : Type 0 where
  pub roles : Address → List Role
  pub blacklisted : Address → Bool
  pub reentrancy_lock : Bool
  pub paused : Bool
  pub pause_lock : Bool
  pub active_ops : ℕ
  pub contract_version : Option ℕ

abbrev pub empty_access : AccessStore
empty_access = record {
  roles = λ a. [];
  blacklisted = λ a. false;
  reentrancy_lock = false;
  paused = false;
  pause_lock = false;
  active_ops = 0;
  contract_version = none;
}

-- The loop `for existing in roles.iter() { if existing == role { … } }`.
unfoldable pub holds : Role → List Role → Bool
holds role [] = false
holds role (existing ∷ rest) = role_eq existing role || holds role rest

-- The loop of `revoke_role`, which keeps the other roles in order.
unfoldable pub without : Role → List Role → List Role
without role [] = []
without role (existing ∷ rest) =
    let kept = without role rest in if role_eq existing role then kept else existing ∷ kept

-- A call on the library's keys, with the calling contract's error type.
abbrev pub Call : Type 0 → Type 0 → Type 0
Call = Contract AccessStore

unfoldable pub has_role : Address → Role → AccessStore → Bool
unfolding holds
has_role address role s = holds role (s.roles address)

module _ {E : Type 0} where
  -- `reentrancy_enter` and `ReentrancyGuard::lock`
  unfoldable pub reentrancy_enter : E → Call E (Unit {0})
  reentrancy_enter e = do
    held ← gets (λ s. s.reentrancy_lock)
    raise_if held e
    modify (λ s. record s { reentrancy_lock = true })

  -- `reentrancy_enter_or_panic` and `ReentrancyGuard::lock_or_panic`
  unfoldable pub reentrancy_enter_or_panic : Call E (Unit {0})
  reentrancy_enter_or_panic = do
    held ← gets (λ s. s.reentrancy_lock)
    panic_if held
    modify (λ s. record s { reentrancy_lock = true })

  -- `reentrancy_exit` and the guard's `drop`
  unfoldable pub reentrancy_exit : Call E (Unit {0})
  reentrancy_exit = modify (λ s. record s { reentrancy_lock = false })

  unfoldable pub assign_role : Address → Role → Call E (Unit {0})
  unfolding holds
  assign_role address role = do
    roles ← gets (λ s. s.roles address)
    if holds role roles
        then pure tt
        else modify (λ s. record s { roles = update address (roles ++ role ∷ []) s.roles })

  unfoldable pub revoke_role : Address → Role → Call E (Unit {0})
  unfolding without reentrancy_enter_or_panic reentrancy_exit
  revoke_role address role = do
    reentrancy_enter_or_panic
    roles ← gets (λ s. s.roles address)
    modify (λ s. record s { roles = update address (without role roles) s.roles })
    reentrancy_exit

  unfoldable pub require_role : Address → Role → E → Call E (Unit {0})
  unfolding has_role
  require_role address role e = do held ← gets (has_role address role); raise_if (not held) e

  unfoldable pub blacklist_address : Address → Call E (Unit {0})
  blacklist_address target =
      modify (λ s. record s { blacklisted = update target true s.blacklisted })

  unfoldable pub unblacklist_address : Address → Call E (Unit {0})
  unblacklist_address target =
      modify (λ s. record s { blacklisted = update target false s.blacklisted })

  unfoldable pub require_not_blacklisted : Address → E → Call E (Unit {0})
  require_not_blacklisted target e = do listed ← gets (λ s. s.blacklisted target); raise_if listed e

  -- The lock is set, the test made, and the lock removed again before the panic.
  unfoldable pub pause_contract : Call E (Unit {0})
  pause_contract = do
    modify (λ s. record s { pause_lock = true })
    active ← gets (λ s. s.active_ops)
    if active == 0 then pure tt else (do modify (λ s. record s { pause_lock = false }); panic)
    modify (λ s. record s { paused = true })
    modify (λ s. record s { pause_lock = false })

  unfoldable pub unpause_contract : Call E (Unit {0})
  unpause_contract = do
    modify (λ s. record s { pause_lock = true })
    modify (λ s. record s { paused = false })
    modify (λ s. record s { pause_lock = false })

  unfoldable pub require_not_paused : E → Call E (Unit {0})
  require_not_paused e = do
    pause_lock ← gets (λ s. s.pause_lock)
    paused ← gets (λ s. s.paused)
    raise_if (paused || pause_lock) e

  unfoldable pub require_not_paused_or_panic : Call E (Unit {0})
  require_not_paused_or_panic = do
    pause_lock ← gets (λ s. s.pause_lock)
    paused ← gets (λ s. s.paused)
    panic_if (paused || pause_lock)

  -- `cnt + 1` traps at the end of the i128 range.
  unfoldable pub operation_enter_or_panic : Call E (Unit {0})
  operation_enter_or_panic = do
    pause_lock ← gets (λ s. s.pause_lock)
    panic_if pause_lock
    paused ← gets (λ s. s.paused)
    panic_if paused
    cnt ← gets (λ s. s.active_ops)
    panic_if (leb (2 ^ 127) (cnt + 1))
    modify (λ s. record s { active_ops = cnt + 1 })

  unfoldable pub operation_exit : Call E (Unit {0})
  operation_exit = do
    cnt ← gets (λ s. s.active_ops)
    modify (λ s. record s { active_ops = if leb cnt 1 then 0 else cnt - 1 })

  unfoldable pub set_contract_version : ℕ → Call E (Unit {0})
  set_contract_version version = modify (λ s. record s { contract_version = some version })

  unfoldable pub get_contract_version : Call E ℕ
  get_contract_version = gets (λ s. or_default 1 s.contract_version)

  -- `query` is what `try_invoke_contract` of `get_version` on a target answers.
  module _ (query : Address → Option ℕ) where
    unfoldable pub check_contract_version : Address → ℕ → ℕ → E → Call E (Unit {0})
    check_contract_version target min_version max_version e = elim (query target) [
      | some version ↦ raise_if (not (leb min_version version && leb version max_version)) e
      | none ↦ raise e
    ]

    unfoldable pub assert_compatible_version : Address → ℕ → E → Call E (Unit {0})
    unfolding check_contract_version
    assert_compatible_version target expected e = check_contract_version target expected expected e

    unfoldable pub assert_compatible_version_or_panic : Address → ℕ → Call E (Unit {0})
    assert_compatible_version_or_panic target expected = elim (query target) [
      | some version ↦ panic_if (not (version == expected))
      | none ↦ panic
    ]
