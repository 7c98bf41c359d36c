-- ===== src/AccessControl/Locks.antt =====
-- The reentrancy lock and the pause switch: who is let in, and what the switch does.
use xource_x.Prelude.{◌+◌, ◌<◌, ◌≡◌, refl, true, false, arith}
use xource_x.Prelude.Outcome.{ok, err, trap}
use xource_x.AccessControl.{
  AccessStore, reentrancy_enter, reentrancy_enter_or_panic, reentrancy_exit, pause_contract,
  unpause_contract, require_not_paused, require_not_paused_or_panic, operation_enter_or_panic,
  operation_exit,
}

module _ {E : Type 0} where
  -- Entering under a lock that is free sets it, and a second entry then fails with the caller's
  -- error; leaving restores the store, so that the next entry succeeds as the first did.
  pub reentrancy_enter-exit :
      (e : E) (s : AccessStore)
      → s.reentrancy_lock ≡ false
      → (s' : AccessStore) × (reentrancy_enter e s ≡ ok (tt, s'))
        × (reentrancy_enter e s' ≡ err e)
        × (reentrancy_enter_or_panic {E = E} s' ≡ trap)
        × (reentrancy_exit {E = E} s' ≡ ok (tt, s))
  unfolding reentrancy_enter reentrancy_enter_or_panic reentrancy_exit
  reentrancy_enter-exit e s free =
      (record s { reentrancy_lock = true }, rw free, refl, refl, ground arith)

  -- Pausing traps while an operation is active; else it succeeds, every operation's test then fails
  -- until the contract is unpaused, and no lock stays behind.
  pause_contract-require_not_paused :
      (e : E) (s : AccessStore)
      → s.active_ops ≡ 0
      → (s' s'' : AccessStore) × (pause_contract {E = E} s ≡ ok (tt, s'))
        × (require_not_paused e s' ≡ err e)
        × (require_not_paused_or_panic {E = E} s' ≡ trap)
        × (operation_enter_or_panic {E = E} s' ≡ trap)
        × (unpause_contract {E = E} s' ≡ ok (tt, s''))
        × (require_not_paused e s'' ≡ ok (tt, s''))
        × (s''.active_ops ≡ 0)
  unfolding pause_contract unpause_contract require_not_paused require_not_paused_or_panic
      operation_enter_or_panic
  pause_contract-require_not_paused e s idle = (
    record s { paused = true; pause_lock = false },
    record s { paused = false; pause_lock = false },
    rw idle,
    refl,
    refl,
    refl,
    refl,
    refl,
    idle,
  )

  -- While an operation is active the contract cannot be paused.
  pub pause_contract_active : (s : AccessStore) → 0 < s.active_ops → pause_contract {E = E} s ≡ trap
  unfolding pause_contract
  pause_contract_active s busy = ground arith

  -- An operation that was let in counts as active until it leaves, and leaving restores the count.
  pub operation_enter-exit :
      (s s' : AccessStore)
      → operation_enter_or_panic {E = E} s ≡ ok (tt, s')
      → (s.paused ≡ false)
        × (s.pause_lock ≡ false)
        × (s'.active_ops ≡ s.active_ops + 1)
        × (pause_contract {E = E} s' ≡ trap)
        × (operation_exit {E = E} s' ≡ ok (tt, s))
  unfolding operation_enter_or_panic operation_exit pause_contract
  operation_enter-exit s s' h = ground arith
