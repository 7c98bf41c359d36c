-- ===== src/Inheritance/Tests/Plans.antt =====
-- Calls of owners, guardians and arbitrators.
use xource_x.Prelude.{refl}
use xource_x.Prelude.Lists.{length, is_empty, contains}
use xource_x.AccessControl.{holds, assign_role}
use xource_x.Inheritance.Store.{
  Store, check_not_paused, enter_guard, exit_guard, check_kyc_approved, store_plan,
  add_plan_to_user, increment_plan_id, assign_role_to_all, bytes_eq,
}
use xource_x.Inheritance.Vaults.{deploy_plan_vault}
use xource_x.Inheritance.Emergency.{
  is_emergency_active, check_and_expire_emergency_access, expire_access,
}
use xource_x.Inheritance.Plans.{
  withdraw, check_emergency_limit, create_inheritance_plan, admit_plan, fund_plan, record_plan,
  register_guardians, creation_fee, validate_plan_inputs,
}
use xource_x.Inheritance.Plans.Funds.{PlanWithdrawn, withdraw-PlanWithdrawn}
use xource_x.Inheritance.Plans.Creation.{
  PlanCreated, PlanFunded, create_inheritance_plan-PlanCreated,
}
use xource_x.Inheritance.Beneficiaries.{
  validate_beneficiaries, validate_each, create_beneficiaries, create_beneficiary, contains_bytes,
}
use xource_x.Inheritance.Hashing.{
  hash_string, hash_claim_code_with_salt, generate_claim_salt, six_digits,
}
use xource_x.Inheritance.Tests.Setup.{host, ledger, store, params, after}

abbrev withdrawn : Store host.World
unfolding withdraw check_emergency_limit is_emergency_active check_and_expire_emergency_access
    expire_access
withdrawn = after store (withdraw host ledger 1 9 1 800 store)

withdraw-PlanWithdrawn_example : PlanWithdrawn host ledger 1 9 1 800 store withdrawn
unfolding withdraw check_emergency_limit is_emergency_active check_and_expire_emergency_access
    expire_access
withdraw-PlanWithdrawn_example = withdraw-PlanWithdrawn host ledger 1 9 1 800 store withdrawn refl

abbrev created : Store host.World
unfolding create_inheritance_plan admit_plan fund_plan record_plan register_guardians creation_fee
    validate_plan_inputs check_not_paused enter_guard exit_guard check_kyc_approved store_plan
    add_plan_to_user increment_plan_id deploy_plan_vault assign_role_to_all bytes_eq
    validate_beneficiaries validate_each create_beneficiaries create_beneficiary contains_bytes
    contains hash_string hash_claim_code_with_salt generate_claim_salt six_digits length is_empty
    holds assign_role
created = after store (create_inheritance_plan host ledger params store)

create_inheritance_plan-PlanCreated_example :
    PlanCreated ledger params 2 store created × PlanFunded host ledger params 2 store created
unfolding create_inheritance_plan admit_plan fund_plan record_plan register_guardians creation_fee
    validate_plan_inputs check_not_paused enter_guard exit_guard check_kyc_approved store_plan
    add_plan_to_user increment_plan_id deploy_plan_vault assign_role_to_all bytes_eq
    validate_beneficiaries validate_each create_beneficiaries create_beneficiary contains_bytes
    contains hash_string hash_claim_code_with_salt generate_claim_salt six_digits length is_empty
    holds assign_role
create_inheritance_plan-PlanCreated_example =
    create_inheritance_plan-PlanCreated host ledger params 2 store created refl
