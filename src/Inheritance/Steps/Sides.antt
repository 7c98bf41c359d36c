-- ===== src/Inheritance/Steps/Sides.antt =====
-- contracts/inheritance-contract/src/lib.rs: the calls that leave every plan, claim and vault as it was.
use xource_x.Prelude.{
  ℕ, ◌≡◌, Bool, Option, none, some, List, [], ◌∷◌, arith, Option-cases, inl, inr,
}
use xource_x.Prelude.Outcome.{ok, >>=-eq-ok, Outcome-cases}
use xource_x.AccessControl.{
  Address, Role, pause_contract, unpause_contract, set_contract_version, require_role,
}
use xource_x.AccessControl
use xource_x.Inheritance.Types.{DisputeRecord, GuardianConfig}
use xource_x.Prelude.Dict.{update}
use xource_x.Inheritance.Store.{
  Ledger, Store, require_admin, reject_blacklisted, get_plan, get_own_plan, save_trigger_config,
  check_not_paused,
}
use xource_x.Inheritance.Books.{SamePlans}
use xource_x.Inheritance.Emergency.{
  check_and_expire_emergency_access, expire_access, activate_access, activate_emergency_access,
  deactivate_emergency_access, set_guardians, approve_emergency_access, add_emergency_contact,
  remove_emergency_contact,
}
use xource_x.Inheritance.Conditions.{
  set_trigger_conditions, add_time_trigger, add_inactivity_trigger, add_oracle_trigger,
  add_health_trigger, record_activity, submit_oracle_trigger, submit_health_trigger,
}
use xource_x.Inheritance.Admin.{
  pause, unpause, initialize_admin, submit_kyc, assign_role, revoke_role, blacklist_address,
  unblacklist_address, approve_kyc, reject_kyc, set_plan_vault_wasm_hash,
}
use xource_x.Inheritance.Disputes.{
  add_arbitrator, remove_arbitrator, open_dispute, file_dispute, raise_dispute, review_dispute,
  unfreeze_plan, decide, decide_each, resolve_dispute, first_or, current_arbitrator,
}
use xource_x.Inheritance.Plans.Creation.{assign_role_to_all-OnlyRoles}
use xource_x.Inheritance.Steps.{SideCall, apply_side_call}

module _ {W : Type 0} (l : Ledger) where
  decided-same :
      (plan_id : ℕ) (approve : Bool) (arbitrator : Address) (i : ℕ) (r : Option DisputeRecord)
      (s t : Store W)
      → decide l plan_id approve arbitrator i r s ≡ ok (tt, t)
      → SamePlans s t
  decided-same plan_id approve arbitrator i none s t h = ground arith
  decided-same plan_id approve arbitrator i (some r) s t h = ground arith

  decide_each-same :
      (plan_id : ℕ) (approve : Bool) (arbitrator : Address) (ids : List ℕ) (s t : Store W)
      → decide_each l plan_id approve arbitrator ids s ≡ ok (tt, t)
      → SamePlans s t
  unfolding decide_each
  decide_each-same plan_id approve arbitrator [] s t h = ground arith
  decide_each-same plan_id approve arbitrator (i ∷ rest) s t h =
      let (d, u, e, k) = >>=-eq-ok (decide l plan_id approve arbitrator i (s.disputes i)) _ s h in
      let first : SamePlans s u = decided-same plan_id approve arbitrator i (s.disputes i) s u e in
      ground (arith, decide_each-same plan_id approve arbitrator rest u t k)

  pub apply_side_call-SamePlans :
      (c : SideCall) (s t : Store W) → apply_side_call l c s ≡ ok (tt, t) → SamePlans s t
  unfolding apply_side_call require_admin reject_blacklisted get_plan get_own_plan
      save_trigger_config check_not_paused expire_access check_and_expire_emergency_access
      activate_access activate_emergency_access deactivate_emergency_access set_guardians
      approve_emergency_access add_emergency_contact remove_emergency_contact set_trigger_conditions
      add_time_trigger add_inactivity_trigger add_oracle_trigger add_health_trigger record_activity
      submit_oracle_trigger submit_health_trigger pause unpause initialize_admin submit_kyc
      assign_role revoke_role blacklist_address unblacklist_address approve_kyc reject_kyc
      set_plan_vault_wasm_hash add_arbitrator remove_arbitrator open_dispute file_dispute
      raise_dispute review_dispute unfreeze_plan resolve_dispute current_arbitrator
      AccessControl.assign_role AccessControl.revoke_role AccessControl.blacklist_address
      AccessControl.unblacklist_address pause_contract unpause_contract set_contract_version
      require_role
  apply_side_call-SamePlans (SideCall.activate_emergency_access o i c) s t h = ground arith
  apply_side_call-SamePlans (SideCall.deactivate_emergency_access o i) s t h = ground arith
  apply_side_call-SamePlans (SideCall.set_guardians o i g n) s t h =
      let config : GuardianConfig = record { guardians = g; threshold = n } in
      let u = record s { guardians = update i (some config) s.guardians } in
      ground (arith, assign_role_to_all-OnlyRoles g Role.guardian u t)
  apply_side_call-SamePlans (SideCall.approve_emergency_access g i c) s t h = ground arith
  apply_side_call-SamePlans (SideCall.add_emergency_contact o i c) s t h = ground arith
  apply_side_call-SamePlans (SideCall.remove_emergency_contact o i c) s t h = ground arith
  apply_side_call-SamePlans (SideCall.set_trigger_conditions o i cs d p a) s t h = ground arith
  apply_side_call-SamePlans (SideCall.add_time_trigger o i n) s t h = ground arith
  apply_side_call-SamePlans (SideCall.add_inactivity_trigger o i n) s t h = ground arith
  apply_side_call-SamePlans (SideCall.add_oracle_trigger o i a) s t h = ground arith
  apply_side_call-SamePlans (SideCall.add_health_trigger o i a) s t h = ground arith
  apply_side_call-SamePlans (SideCall.record_activity o i) s t h = ground arith
  apply_side_call-SamePlans (SideCall.submit_oracle_trigger a i) s t h = ground arith
  apply_side_call-SamePlans (SideCall.submit_health_trigger a i) s t h = ground arith
  apply_side_call-SamePlans (SideCall.pause a) s t h = ground arith
  apply_side_call-SamePlans (SideCall.unpause a) s t h = ground arith
  apply_side_call-SamePlans (SideCall.initialize_admin a) s t h = ground arith
  apply_side_call-SamePlans (SideCall.submit_kyc u) s t h = ground arith
  apply_side_call-SamePlans (SideCall.assign_role a u r) s t h = ground arith
  apply_side_call-SamePlans (SideCall.revoke_role a u r) s t h = ground arith
  apply_side_call-SamePlans (SideCall.blacklist_address a u) s t h = ground arith
  apply_side_call-SamePlans (SideCall.unblacklist_address a u) s t h = ground arith
  apply_side_call-SamePlans (SideCall.approve_kyc a u) s t h = ground arith
  apply_side_call-SamePlans (SideCall.reject_kyc a u) s t h = ground arith
  apply_side_call-SamePlans (SideCall.set_plan_vault_wasm_hash a hash) s t h = ground arith
  apply_side_call-SamePlans (SideCall.add_arbitrator a b) s t h = ground arith
  apply_side_call-SamePlans (SideCall.remove_arbitrator a b) s t h = ground arith
  apply_side_call-SamePlans (SideCall.file_dispute d i r) s t h = ground arith
  apply_side_call-SamePlans (SideCall.raise_dispute i c) s t h = ground arith
  apply_side_call-SamePlans (SideCall.review_dispute a i st n f) s t h = ground arith
  apply_side_call-SamePlans (SideCall.unfreeze_plan a i) s t h = ground arith
  apply_side_call-SamePlans (SideCall.resolve_dispute i b) s t h = elim (Option-cases s.admin) [
    | inl missing ↦ absurd (ground arith)
    | inr (a, found) ↦
        let arbitrator = first_or a s.arbitrators in
        elim (Outcome-cases (decide_each l i b arbitrator (s.plan_disputes i) s)) [
          | inr (inl (e, failed)) ↦ absurd (ground arith)
          | inr (inr trapped) ↦ absurd (ground arith)
          | inl ((d, u), e) ↦
              ground (arith, decide_each-same i b arbitrator (s.plan_disputes i) s u e)
        ]
  ]
