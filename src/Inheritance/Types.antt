-- ===== src/Inheritance/Types.antt =====
-- contracts/inheritance-contract/src/lib.rs and disputes.rs: the stored structs, the errors and the
-- events of the operations that are modelled.
use xource_x.Prelude.{ℕ, Bool, Option, List}
use xource_x.AccessControl.{Address}

-- The bytes of a `String`, a `Symbol`, a `Bytes` or a `BytesN<32>`.
abbrev pub Bytes : Type 0
Bytes = List ℕ

pub data DistributionMethod : Type 0 where
  lump_sum monthly quarterly yearly : DistributionMethod

pub record Beneficiary : Type 0 where
  pub hashed_full_name : Bytes
  pub hashed_email : Bytes
  pub hashed_claim_code : Bytes
  pub bank_account : Bytes
  pub allocation_bp : ℕ
  pub priority : ℕ
  pub is_claimed : Bool

-- Also a tuple of `beneficiaries_data`, whose parts stand in this order.
pub record BeneficiaryInput : Type 0 where
  pub name : Bytes
  pub email : Bytes
  pub claim_code : ℕ
  pub bank_account : Bytes
  pub allocation_bp : ℕ
  pub priority : ℕ

pub record InheritancePlan : Type 0 where
  pub plan_name : Bytes
  pub description : Bytes
  pub token : Address
  pub asset_type : Bytes
  pub total_amount : ℕ
  pub distribution_method : DistributionMethod
  pub beneficiaries : List Beneficiary
  pub total_allocation_bp : ℕ
  pub owner : Address
  pub created_at : ℕ
  pub is_active : Bool
  pub is_lendable : Bool
  pub total_loaned : ℕ
  pub waterfall_enabled : Bool
  pub grace_period : ℕ
  pub earn_yield : Bool

pub record CreateInheritancePlanParams : Type 0 where
  pub owner : Address
  pub token : Address
  pub plan_name : Bytes
  pub description : Bytes
  pub total_amount : ℕ
  pub distribution_method : DistributionMethod
  pub beneficiaries_data : List BeneficiaryInput
  pub is_lendable : Bool
  pub guardians : List Address
  pub guardian_threshold : ℕ

-- The errors that the modelled operations return.
pub data InheritanceError : Type 0 where
  invalid_asset_type invalid_total_amount missing_required_field : InheritanceError
  too_many_beneficiaries allocation_percentage_mismatch : InheritanceError
  description_too_long invalid_beneficiary_data unauthorized plan_not_found : InheritanceError
  invalid_beneficiary_index invalid_allocation invalid_claim_code_range : InheritanceError
  claim_not_allowed_yet already_claimed beneficiary_not_found : InheritanceError
  plan_already_deactivated plan_not_active admin_not_set admin_already_initialized :
      InheritanceError
  not_admin kyc_not_submitted kyc_already_rejected insufficient_balance : InheritanceError
  fee_transfer_failed insufficient_liquidity inheritance_already_triggered : InheritanceError
  emergency_cooldown_active nothing_to_claim emergency_access_already_active : InheritanceError
  invalid_guardian_threshold emergency_contact_already_exists : InheritanceError
  too_many_emergency_contacts emergency_contact_not_found guardian_not_found : InheritanceError
  already_approved inheritance_not_triggered no_outstanding_loans : InheritanceError
  loan_recall_failed vault_not_found blk : InheritanceError

pub record GuardianConfig : Type 0 where
  pub guardians : List Address
  pub threshold : ℕ

pub record ClaimRecord : Type 0 where
  pub plan_id : ℕ
  pub beneficiary_index : ℕ
  pub claimed_at : ℕ

pub record ClaimAttemptWindow : Type 0 where
  pub window_start : ℕ
  pub attempts : ℕ

pub record KycStatus : Type 0 where
  pub submitted : Bool
  pub approved : Bool
  pub rejected : Bool
  pub submitted_at : ℕ
  pub approved_at : ℕ
  pub rejected_at : ℕ

pub record InheritanceTriggerInfo : Type 0 where
  pub triggered_at : ℕ
  pub loan_freeze_active : Bool
  pub recall_attempted : Bool
  pub liquidation_triggered : Bool
  pub original_loaned : ℕ
  pub recalled_amount : ℕ
  pub settled_amount : ℕ

pub record EmergencyAccessRecord : Type 0 where
  pub plan_id : ℕ
  pub trusted_contact : Address
  pub activated_at : ℕ

pub data TriggerConditionType : Type 0 where
  manual time inactivity oracle health : TriggerConditionType

pub record TriggerConfig : Type 0 where
  pub conditions : List TriggerConditionType
  pub trigger_date : ℕ
  pub inactivity_period : ℕ
  pub last_activity : ℕ
  pub oracle_address : Option Address
  pub oracle_triggered : Bool
  pub health_triggered : Bool

pub record FreezeRecord : Type 0 where
  pub plan_id : ℕ
  pub frozen_at : ℕ
  pub reason : Bytes
  pub frozen_by : Address

pub record LegalHold : Type 0 where
  pub plan_id : ℕ
  pub added_at : ℕ
  pub reason : Bytes
  pub added_by : Address

pub data DisputeStatus : Type 0 where
  filed under_review resolved rejected : DisputeStatus

pub record DisputeRecord : Type 0 where
  pub dispute_id : ℕ
  pub plan_id : ℕ
  pub disputer : Address
  pub reason : Bytes
  pub status : DisputeStatus
  pub filed_at : ℕ
  pub resolved_at : ℕ
  pub resolution_notes : Bytes
  pub arbitrator : Address

-- The published events, with the fields of their structs in order.
pub data Event : Type 0 where
  paused unpaused : (at : ℕ) → Event
  beneficiary_added : (plan_id : ℕ) (hashed_email : Bytes) (allocation_bp : ℕ) → Event
  beneficiary_removed : (plan_id index allocation_bp : ℕ) → Event
  vault_lendable_changed : (plan_id : ℕ) → Bool → Event
  grace_period_updated : (plan_id new_grace_period : ℕ) → Event
  vault_deposit vault_withdraw : (plan_id amount : ℕ) → Event
  priority_set : (plan_id beneficiary_index priority : ℕ) → Event
  waterfall_enabled : (plan_id enabled_at : ℕ) → Event
  claim_succeeded : (plan_id : ℕ) (hashed_email : Bytes) (payout : ℕ) → Event
  fiat_payout_requested : (plan_id index payout : ℕ) → Event
  kyc_approved kyc_rejected : (user : Address) (at : ℕ) → Event
  plan_deactivated : (plan_id : ℕ) (owner : Address) (total_amount deactivated_at : ℕ) → Event
  emergency_access_activated : (plan_id : ℕ) (contact : Address) (at : ℕ) → Event
  emergency_access_approved : (plan_id : ℕ) (contact guardian : Address) (count : ℕ) → Event
  emergency_access_revoked emergency_access_expired : (plan_id at : ℕ) → Event
  emergency_contact_added emergency_contact_removed : (plan_id : ℕ) (contact : Address) → Event
  trigger_condition_set trigger_condition_met : (plan_id n : ℕ) → Event
  inheritance_triggered : (plan_id triggered_at outstanding_loans : ℕ) → Event
  loan_frozen : (plan_id frozen_at : ℕ) → Event
  loan_recalled : (plan_id recalled_amount remaining_loaned : ℕ) → Event
  liquidated : (plan_id settled_amount claimable_amount : ℕ) → Event
  dispute_filed dispute_raised :
      (dispute_id plan_id : ℕ) (disputer : Address) (reason : Bytes) (filed_at : ℕ) → Event
  dispute_resolved :
      (dispute_id plan_id : ℕ) → DisputeStatus → (arbitrator : Address) (resolved_at : ℕ) → Event
  plan_frozen : (plan_id : ℕ) (frozen_by : Address) (frozen_at : ℕ) (reason : Bytes) → Event
  plan_unfrozen : (plan_id : ℕ) (unfrozen_by : Address) (unfrozen_at : ℕ) → Event
  plan_frozen_for plan_unfrozen_for : (plan_id dispute_id at : ℕ) → Event
  plan_ownership_transferred :
      (plan_id : ℕ) (old_owner new_owner : Address) (transferred_at : ℕ) → Event
