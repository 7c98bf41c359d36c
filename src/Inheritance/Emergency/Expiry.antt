-- ===== src/Inheritance/Emergency/Expiry.antt =====
-- contracts/inheritance-contract/src/lib.rs: the end of emergency access, and the limit on what leaves
-- a plan while the access is fresh.
use xource_x.Prelude.{
  ℕ, ◌≡◌, refl, Bool, true, false, Option, none, some, arith, Bool-cases, inl, inr, is_some,
}
use xource_x.Prelude.Outcome.{ok, >>=-eq-ok}
use xource_x.Inheritance.Types.{EmergencyAccessRecord}
use xource_x.Inheritance.Store.{Ledger, Store}
use xource_x.Inheritance.Emergency.{
  in_cooldown, expire_access, check_and_expire_emergency_access, is_emergency_active,
  get_emergency_access,
}

module _ {W : Type 0} (l : Ledger) (plan_id : ℕ) where
  -- At most the emergency access has changed, and the events.
  abbrev pub OnlyAccess : Store W → Store W → Type 0
  OnlyAccess s t = t ≡ record s { emergency_access = t.emergency_access; events = t.events }

  expire_access-lem :
      (r : Option EmergencyAccessRecord) (active : Bool) (s t : Store W)
      → s.emergency_access plan_id ≡ r
      → expire_access l plan_id r s ≡ ok (active, t)
      → OnlyAccess s t
        × (active ≡ true → t ≡ s)
        × (active ≡ false → in_cooldown l.timestamp r ≡ false)
  unfolding expire_access
  expire_access-lem none active s t e h = ground arith
  expire_access-lem (some r) active s t e h = (ground arith, λ a. ground arith, λ a. ground arith)

  pub is_emergency_active-lem :
      (active : Bool) (s t : Store W)
      → is_emergency_active l plan_id s ≡ ok (active, t)
      → OnlyAccess s t × (active ≡ in_cooldown l.timestamp (s.emergency_access plan_id))
  unfolding is_emergency_active check_and_expire_emergency_access
  is_emergency_active-lem active s t h =
      let (b, u, e, k) = >>=-eq-ok (expire_access l plan_id (s.emergency_access plan_id)) _ s h in
      let (only, same, over) = expire_access-lem (s.emergency_access plan_id) b s u refl e in
      elim (Bool-cases b) [ inl y ↦ ground (arith, same y) | inr n ↦ ground (arith, over n) ]

  pub get_emergency_access-lem :
      (r : Option EmergencyAccessRecord) (s t : Store W)
      → get_emergency_access l plan_id s ≡ ok (r, t)
      → OnlyAccess s t × (is_some r ≡ true → s.emergency_access plan_id ≡ r)
  unfolding get_emergency_access check_and_expire_emergency_access
  get_emergency_access-lem r s t h =
      let (b, u, e, k) = >>=-eq-ok (expire_access l plan_id (s.emergency_access plan_id)) _ s h in
      let (only, same, over) = expire_access-lem (s.emergency_access plan_id) b s u refl e in
      elim (Bool-cases b) [
        | inl y ↦ (ground (arith, same y), λ p. ground (arith, same y))
        | inr n ↦ (ground arith, λ p. ground arith)
      ]
