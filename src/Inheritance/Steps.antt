-- ===== src/Inheritance/Steps.antt =====
-- contracts/inheritance-contract/src/lib.rs: the contract as one machine. A step is a successful call
-- of one of the entry points below, by anyone and with any arguments, or anything that the other
-- contracts do.
pub mod Sides
pub mod PlanChanges
pub mod Changes
pub mod Reachable
use xource_x.Prelude.{ℕ, ◌≡◌, Bool, Option, List}
use xource_x.Prelude.Outcome.{ok, ◌>>=◌, ◌>>◌, pure}
use xource_x.AccessControl.{Address, Role}
use xource_x.Inheritance.Types.{
  Bytes, BeneficiaryInput, CreateInheritancePlanParams, TriggerConditionType, DisputeStatus,
}
use xource_x.Inheritance.Store.{External, Ledger, Store, Action}
use xource_x.Inheritance.Beneficiaries
use xource_x.Inheritance.Plans
use xource_x.Inheritance.Settings
use xource_x.Inheritance.Triggers
use xource_x.Inheritance.Conditions
use xource_x.Inheritance.Recall
use xource_x.Inheritance.Emergency
use xource_x.Inheritance.Admin
use xource_x.Inheritance.Disputes
use xource_x.Inheritance.Claims

-- A call that may change the stored plan with this id.
pub data PlanCall : Type 0 where
  set_lendable : (owner : Address) → Bool → PlanCall
  update_grace_period : (new_grace_period : ℕ) → PlanCall
  enable_waterfall_distribution deactivate_inheritance_plan : (owner : Address) → PlanCall
  transfer_plan_ownership : (owner new_owner : Address) → PlanCall
  remove_beneficiary : (owner : Address) (index : ℕ) → PlanCall
  set_beneficiary_priority : (owner : Address) (index priority : ℕ) → PlanCall
  auto_trigger_check : PlanCall
  trigger_inheritance : (caller : Address) → PlanCall
  guardian_emergency_trigger : (signers : List Address) → PlanCall
  freeze_loans liquidation_fallback : (admin : Address) → PlanCall
  recall_loan : (admin : Address) (recall_amount : ℕ) → PlanCall

unfoldable pub apply_plan_call : {W : Type 0} → Ledger → ℕ → PlanCall → Action W (Unit {0})
apply_plan_call l id (PlanCall.set_lendable owner lendable) =
    Settings.set_lendable l owner id lendable
apply_plan_call l id (PlanCall.update_grace_period n) = Settings.update_grace_period l id n
apply_plan_call l id (PlanCall.enable_waterfall_distribution owner) =
    Settings.enable_waterfall_distribution l owner id
apply_plan_call l id (PlanCall.deactivate_inheritance_plan owner) =
    Settings.deactivate_inheritance_plan l owner id
apply_plan_call l id (PlanCall.transfer_plan_ownership owner new_owner) =
    Settings.transfer_plan_ownership l owner new_owner id
apply_plan_call l id (PlanCall.remove_beneficiary owner index) =
    Beneficiaries.remove_beneficiary l owner id index
apply_plan_call l id (PlanCall.set_beneficiary_priority owner index priority) =
    Beneficiaries.set_beneficiary_priority l owner id index priority
apply_plan_call l id PlanCall.auto_trigger_check = Triggers.auto_trigger_check l id
apply_plan_call l id (PlanCall.trigger_inheritance caller) =
    Triggers.trigger_inheritance l caller id
apply_plan_call l id (PlanCall.guardian_emergency_trigger signers) =
    Triggers.guardian_emergency_trigger l id signers
apply_plan_call l id (PlanCall.freeze_loans admin) = Recall.freeze_loans l admin id
apply_plan_call l id (PlanCall.liquidation_fallback admin) = Recall.liquidation_fallback l admin id
apply_plan_call l id (PlanCall.recall_loan admin amount) = Recall.recall_loan l admin id amount

-- A call that leaves the plans alone: on emergency access, trigger conditions, roles, KYC or disputes.
pub data SideCall : Type 0 where
  activate_emergency_access : (owner : Address) (plan_id : ℕ) (contact : Address) → SideCall
  deactivate_emergency_access : (owner : Address) (plan_id : ℕ) → SideCall
  set_guardians : (owner : Address) (plan_id : ℕ) → List Address → (threshold : ℕ) → SideCall
  approve_emergency_access : (guardian : Address) (plan_id : ℕ) (contact : Address) → SideCall
  add_emergency_contact remove_emergency_contact :
      (owner : Address) (plan_id : ℕ) (contact : Address) → SideCall
  set_trigger_conditions :
      (owner : Address) (plan_id : ℕ)
      → List TriggerConditionType
      → (trigger_date inactivity_period : ℕ) → Option Address
      → SideCall
  add_time_trigger add_inactivity_trigger add_oracle_trigger add_health_trigger :
      (owner : Address) (plan_id n : ℕ) → SideCall
  record_activity submit_oracle_trigger submit_health_trigger :
      (caller : Address) (plan_id : ℕ) → SideCall
  pause unpause initialize_admin submit_kyc : (who : Address) → SideCall
  assign_role revoke_role : (admin address : Address) → Role → SideCall
  blacklist_address unblacklist_address approve_kyc reject_kyc : (admin who : Address) → SideCall
  set_plan_vault_wasm_hash : (admin : Address) → Bytes → SideCall
  add_arbitrator remove_arbitrator : (admin arbitrator : Address) → SideCall
  file_dispute : (disputer : Address) (plan_id : ℕ) → Bytes → SideCall
  raise_dispute : (plan_id : ℕ) (challenger : Address) → SideCall
  review_dispute :
      (arbitrator : Address) (dispute_id : ℕ) → DisputeStatus → Bytes → (freeze : Bool) → SideCall
  unfreeze_plan : (admin : Address) (plan_id : ℕ) → SideCall
  resolve_dispute : (plan_id : ℕ) (approve : Bool) → SideCall

unfoldable pub apply_side_call : {W : Type 0} → Ledger → SideCall → Action W (Unit {0})
apply_side_call l (SideCall.activate_emergency_access o i c) =
    Emergency.activate_emergency_access l o i c
apply_side_call l (SideCall.deactivate_emergency_access o i) =
    Emergency.deactivate_emergency_access l o i
apply_side_call l (SideCall.set_guardians o i g n) = Emergency.set_guardians l o i g n
apply_side_call l (SideCall.approve_emergency_access g i c) =
    Emergency.approve_emergency_access l g i c
apply_side_call l (SideCall.add_emergency_contact o i c) = Emergency.add_emergency_contact l o i c
apply_side_call l (SideCall.remove_emergency_contact o i c) =
    Emergency.remove_emergency_contact l o i c
apply_side_call l (SideCall.set_trigger_conditions o i cs d p a) =
    Conditions.set_trigger_conditions l o i cs d p a
apply_side_call l (SideCall.add_time_trigger o i n) = Conditions.add_time_trigger l o i n
apply_side_call l (SideCall.add_inactivity_trigger o i n) =
    Conditions.add_inactivity_trigger l o i n
apply_side_call l (SideCall.add_oracle_trigger o i a) = Conditions.add_oracle_trigger l o i a
apply_side_call l (SideCall.add_health_trigger o i a) = Conditions.add_health_trigger l o i a
apply_side_call l (SideCall.record_activity o i) = Conditions.record_activity l o i
apply_side_call l (SideCall.submit_oracle_trigger a i) = Conditions.submit_oracle_trigger l a i
apply_side_call l (SideCall.submit_health_trigger a i) = Conditions.submit_health_trigger l a i
apply_side_call l (SideCall.pause a) = Admin.pause l a
apply_side_call l (SideCall.unpause a) = Admin.unpause l a
apply_side_call l (SideCall.initialize_admin a) = Admin.initialize_admin l a
apply_side_call l (SideCall.submit_kyc u) = Admin.submit_kyc l u
apply_side_call l (SideCall.assign_role a u r) = Admin.assign_role l a u r
apply_side_call l (SideCall.revoke_role a u r) = Admin.revoke_role l a u r
apply_side_call l (SideCall.blacklist_address a u) = Admin.blacklist_address l a u
apply_side_call l (SideCall.unblacklist_address a u) = Admin.unblacklist_address l a u
apply_side_call l (SideCall.approve_kyc a u) = Admin.approve_kyc l a u
apply_side_call l (SideCall.reject_kyc a u) = Admin.reject_kyc l a u
apply_side_call l (SideCall.set_plan_vault_wasm_hash a h) = Admin.set_plan_vault_wasm_hash l a h
apply_side_call l (SideCall.add_arbitrator a b) = Disputes.add_arbitrator l a b
apply_side_call l (SideCall.remove_arbitrator a b) = Disputes.remove_arbitrator l a b
apply_side_call l (SideCall.file_dispute d i r) = do Disputes.file_dispute l d i r; pure tt
apply_side_call l (SideCall.raise_dispute i c) = do Disputes.raise_dispute l i c; pure tt
apply_side_call l (SideCall.review_dispute a i st n f) = Disputes.review_dispute l a i st n f
apply_side_call l (SideCall.unfreeze_plan a i) = Disputes.unfreeze_plan l a i
apply_side_call l (SideCall.resolve_dispute i b) = Disputes.resolve_dispute l i b

module _ (x : External) where
  open x use {World}

  pub data Step : Store World → Store World → Type 0 where
    created :
        (l : Ledger) (params : CreateInheritancePlanParams) (id : ℕ) {s t : Store World}
        → Plans.create_inheritance_plan x l params s ≡ ok (id, t)
        → Step s t
    added :
        (l : Ledger) (owner : Address) (id : ℕ) (input : BeneficiaryInput) {s t : Store World}
        → Beneficiaries.add_beneficiary x l owner id input s ≡ ok (tt, t)
        → Step s t
    updated :
        (l : Ledger) (owner : Address) (id : ℕ) (bs : List BeneficiaryInput) (grace : ℕ)
        (earn : Bool) {s t : Store World}
        → Plans.update_plan x l owner id bs grace earn s ≡ ok (tt, t)
        → Step s t
    deposited :
        (l : Ledger) (caller token : Address) (id amount : ℕ) {s t : Store World}
        → Plans.deposit x l caller token id amount s ≡ ok (tt, t)
        → Step s t
    withdrawn :
        (l : Ledger) (caller token : Address) (id amount : ℕ) {s t : Store World}
        → Plans.withdraw x l caller token id amount s ≡ ok (tt, t)
        → Step s t
    claimed :
        (l : Ledger) (id : ℕ) (claimer : Address) (email : Bytes) (claim_code : ℕ)
        {s t : Store World}
        → Claims.claim_inheritance_plan x l id claimer email claim_code s ≡ ok (tt, t)
        → Step s t
    plan_called :
        (l : Ledger) (id : ℕ) (c : PlanCall) {s t : Store World}
        → apply_plan_call l id c s ≡ ok (tt, t)
        → Step s t
    side_called :
        (l : Ledger) (c : SideCall) {s t : Store World}
        → apply_side_call l c s ≡ ok (tt, t)
        → Step s t
    others : (w : World) (s : Store World) → Step s (record s { world = w })

  pub data Reach (s : Store World) : Store World → Type 0 where
    here : Reach s s
    next : {t u : Store World} → Reach s t → Step t u → Reach s u
