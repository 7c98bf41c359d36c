-- ===== src/AccessControl/Roles.antt =====
-- Roles: what assigning and revoking do to the answers of `has_role`.
use xource_x.Prelude.{
  ◌≡◌, refl, true, false, ◌&&◌, ◌||◌, not, List, [], ◌∷◌, ◌++◌, arith, ◌==◌, Bool-cases, inl, inr,
}
use xource_x.Prelude.Outcome.{ok, trap}
use xource_x.Prelude.Dict.{update}
use xource_x.AccessControl.{
  Address, Role, role_eq, AccessStore, holds, without, assign_role, revoke_role, has_role,
}

role_eq_sound : (a b c : Role) → role_eq a b ≡ true → role_eq a c ≡ role_eq b c
role_eq_sound a b c h = ground arith

role_eq_refl : (a : Role) → role_eq a a ≡ true
role_eq_refl a = ground arith

holds-append :
    (role added : Role) (roles : List Role)
    → holds role (roles ++ added ∷ []) ≡ (holds role roles || role_eq added role)
unfolding holds
holds-append role added [] = ground arith
holds-append role added (r ∷ roles) = ground (arith, holds-append role added roles)

-- A role that is held stays the only answer to an equal one.
holds-role_eq :
    (a b : Role) (roles : List Role)
    → role_eq a b ≡ true
    → holds a roles ≡ true
    → holds b roles ≡ true
unfolding holds
holds-role_eq a b [] e h = h
holds-role_eq a b (r ∷ roles) e h = ground (arith, holds-role_eq a b roles e)

holds-without :
    (role revoked : Role) (roles : List Role)
    → holds role (without revoked roles) ≡ (holds role roles && not (role_eq revoked role))
unfolding holds without
holds-without role revoked [] = refl
holds-without role revoked (r ∷ roles) =
    ground (arith, holds-without role revoked roles, role_eq_sound r revoked role)

module _ {E : Type 0} where
  -- Assigning a role always succeeds, and adds exactly that role to that address: every question
  -- to `has_role` is answered as before, or yes where it asks for what was assigned.
  pub assign_role-has_role :
      (address : Address) (role : Role) (s : AccessStore)
      → (s' : AccessStore) × (assign_role {E = E} address role s ≡ ok (tt, s'))
        × ((a : Address) (r : Role)
            → has_role a r s' ≡ (has_role a r s || (address == a && role_eq role r)))
  unfolding assign_role has_role
  assign_role-has_role address role s = elim (Bool-cases (holds role (s.roles address))) [
    | inl held ↦ (s, rw held, λ a r. unchanged a r held)
    | inr free ↦ (
      record s { roles = update address (s.roles address ++ role ∷ []) s.roles },
      rw free,
      λ a r. ground (arith, holds-append r role (s.roles a)),
    )
  ]
    where
      unchanged :
          (a : Address) (r : Role)
          → holds role (s.roles address) ≡ true
          → holds r (s.roles a) ≡ (holds r (s.roles a) || (address == a && role_eq role r))
      unchanged a r held = ground (arith, holds-role_eq role r (s.roles address))

  -- Revoking a role outside a guarded call always succeeds, and takes exactly that role from that
  -- address; the lock is free again afterwards.
  pub revoke_role-has_role :
      (address : Address) (role : Role) (s : AccessStore)
      → s.reentrancy_lock ≡ false
      → (s' : AccessStore) × (revoke_role {E = E} address role s ≡ ok (tt, s'))
        × (s'.reentrancy_lock ≡ false)
        × ((a : Address) (r : Role)
            → has_role a r s' ≡ (has_role a r s && not (address == a && role_eq role r)))
  unfolding revoke_role has_role
  revoke_role-has_role address role s free = (
    record s {
      roles = update address (without role (s.roles address)) s.roles;
      reentrancy_lock = false;
    },
    rw free,
    refl,
    λ a r. ground (arith, holds-without r role (s.roles a)),
  )

  -- Inside a guarded call revoking traps.
  pub revoke_role_locked :
      (address : Address) (role : Role) (s : AccessStore)
      → s.reentrancy_lock ≡ true
      → revoke_role {E = E} address role s ≡ trap
  unfolding revoke_role
  revoke_role_locked address role s held = rw held
