-- ===== src/Inheritance/Triggers/Guardians.antt =====
-- contracts/inheritance-contract/src/lib.rs: who can trigger a plan's inheritance by a call.
use xource_x.Prelude.{
  ℕ, ◌≤◌, ◌≡◌, refl, true, false, not, ◌&&◌, Option, none, some, List, [], ◌∷◌, ◌++◌, arith,
  Option-cases, Bool-cases, inl, inr, ◌==◌, subst,
}
use xource_x.Prelude.Lists.{length, contains}
use xource_x.Prelude.Outcome.{ok, Outcome-cases}
use xource_x.AccessControl.{Address}
use xource_x.Inheritance.Types.{EmergencyAccessRecord, GuardianConfig, InheritancePlan}
use xource_x.Inheritance.Store.{Ledger, Store}
use xource_x.Inheritance.Books.{locked}
use xource_x.Inheritance.Triggers.{
  is_address, approving_guardians, guardian_emergency_trigger, get_triggerable_plan,
  authorize_trigger, trigger_inheritance,
}
use xource_x.Inheritance.Emergency.{get_emergency_access}
use xource_x.Inheritance.Emergency.Expiry.{OnlyAccess, get_emergency_access-lem}
use xource_x.Inheritance.Triggers.Effects.{Triggered}

module _ (l : Ledger) where
  -- The guardians that approve are distinct, registered, and have authorised the call.
  pub data Approving (guardians : List Address) : List Address → Type 0 where
    none_yet : Approving guardians []
    one_more :
        {approved : List Address} (signer : Address)
        → Approving guardians approved
        → contains guardians signer ≡ true
        → contains approved signer ≡ false
        → l.authorized signer ≡ true
        → Approving guardians (approved ++ signer ∷ [])

is_address-eq :
    (stored : Option Address) (who : Address) → is_address stored who ≡ true → stored ≡ some who
is_address-eq none who h = absurd (ground arith)
is_address-eq (some a) who h = ground arith

module _ {W : Type 0} (l : Ledger) where
  approving_guardians-Approving :
      (guardians approved signers out : List Address) (s t : Store W)
      → Approving l guardians approved
      → approving_guardians l guardians approved signers s ≡ ok (out, t)
      → (t ≡ s) × Approving l guardians out
  unfolding approving_guardians
  approving_guardians-Approving guardians approved [] out s t a h =
      (ground arith, subst (Approving l guardians) (ground arith) a)
  approving_guardians-Approving guardians approved (signer ∷ rest) out s t a h =
      elim (Bool-cases (contains guardians signer && not (contains approved signer))) [
        | inr skip ↦ approving_guardians-Approving guardians approved rest out s t a (ground arith)
        | inl new ↦
            approving_guardians-Approving guardians (approved ++ signer ∷ []) rest out s t
              (one_more signer a (ground arith) (ground arith) (ground arith)) (ground arith)
      ]

  -- What `trigger_inheritance` and `guardian_emergency_trigger` leave: the plan was not frozen, and is
  -- triggered now.
  pub record TriggeredByCall (plan_id : ℕ) (s t : Store W) : Type 0 where
    pub trigger : Triggered l plan_id s t
    pub thawed : (s.freezes plan_id ≡ none) × (s.legal_holds plan_id ≡ none)
    pub same_world : t.world ≡ s.world
    pub counter : t.next_plan_id ≡ s.next_plan_id
    pub claims : (t.claims ≡ s.claims) × (t.plan_vaults ≡ s.plan_vaults)

  -- The admin, the owner of the plan, or the contact that has emergency access.
  pub data MayTrigger (caller : Address) (plan_id : ℕ) (s : Store W) : Type 0 where
    admin : s.admin ≡ some caller → MayTrigger caller plan_id s
    owner :
        (plan : InheritancePlan)
        → s.plans plan_id ≡ some plan
        → plan.owner ≡ caller
        → MayTrigger caller plan_id s
    contact :
        (r : EmergencyAccessRecord)
        → s.emergency_access plan_id ≡ some r
        → r.trusted_contact ≡ caller
        → MayTrigger caller plan_id s

  by_access :
      (caller : Address) (plan_id : ℕ) (plan : InheritancePlan) (s t : Store W)
      → s.plans plan_id ≡ some plan
      → (plan.owner == caller) ≡ false
      → is_address s.admin caller ≡ false
      → authorize_trigger l caller plan_id s ≡ ok (tt, t)
      → OnlyAccess l plan_id s t × (l.authorized caller ≡ true) × MayTrigger caller plan_id s
  unfolding authorize_trigger
  by_access caller plan_id plan s t found other foreign h =
      elim (Outcome-cases (get_emergency_access l plan_id s)) [
        | inr (inl (e, failed)) ↦ absurd (ground arith)
        | inr (inr trapped) ↦ absurd (ground arith)
        | inl ((none, u), run) ↦ absurd (ground arith)
        | inl ((some r, u), run) ↦
            let (only, held) = get_emergency_access-lem l plan_id (some r) s u run in
            (ground arith, ground arith, MayTrigger.contact r (held refl) (ground arith))
      ]

  authorize_trigger-lem :
      (caller : Address) (plan_id : ℕ) (s t : Store W)
      → authorize_trigger l caller plan_id s ≡ ok (tt, t)
      → OnlyAccess l plan_id s t × (l.authorized caller ≡ true) × MayTrigger caller plan_id s
  unfolding authorize_trigger
  authorize_trigger-lem caller plan_id s t h = elim (Bool-cases (is_address s.admin caller)) [
    | inl y ↦ (ground arith, ground arith, MayTrigger.admin (is_address-eq s.admin caller y))
    | inr n ↦ elim (Option-cases (s.plans plan_id)) [
      | inl missing ↦ absurd (ground arith)
      | inr (plan, found) ↦ elim (Bool-cases (plan.owner == caller)) [
        | inl y ↦ (ground arith, ground arith, MayTrigger.owner plan found (ground arith))
        | inr other ↦ by_access caller plan_id plan s t found other n h
      ]
    ]
  ]

  may_before :
      (caller : Address) (plan_id : ℕ) (s : Store W)
      → MayTrigger caller plan_id (locked s)
      → MayTrigger caller plan_id s
  may_before caller plan_id s (MayTrigger.admin a) = MayTrigger.admin a
  may_before caller plan_id s (MayTrigger.owner plan f o) = MayTrigger.owner plan f o
  may_before caller plan_id s (MayTrigger.contact r f c) = MayTrigger.contact r f c

  -- `trigger_inheritance` succeeds only for a caller that is the admin, the plan's owner or its
  -- emergency contact, and has authorised the call, and only for an active plan that is not triggered
  -- yet and neither frozen nor on hold. It records the trigger and ends the lending of the plan; tokens,
  -- claims and vaults stay. The two other ways to trigger a plan are not meant here.
  pub trigger_inheritance-Triggered :
      (caller : Address) (plan_id : ℕ) (s t : Store W)
      → trigger_inheritance l caller plan_id s ≡ ok (tt, t)
      → (l.authorized caller ≡ true) × MayTrigger caller plan_id s × TriggeredByCall plan_id s t
  unfolding trigger_inheritance get_triggerable_plan
  trigger_inheritance-Triggered caller plan_id s t h =
      elim (Outcome-cases (authorize_trigger l caller plan_id (locked s))) [
        | inr (inl (e, failed)) ↦ absurd (ground arith)
        | inr (inr trapped) ↦ absurd (ground arith)
        | inl ((d, u), run) ↦
            let (only, auth, may) = authorize_trigger-lem caller plan_id (locked s) u run in
            elim (Option-cases (s.plans plan_id)) [
              | inl missing ↦ absurd (ground arith)
              | inr (plan, stored) ↦ (
                auth,
                may_before caller plan_id s may,
                record {
                  trigger = record {
                    plan = plan;
                    found = stored;
                    active = ground arith;
                    untriggered = ground arith;
                    stored = ground arith;
                    recorded = ground arith;
                  };
                  thawed = ground arith;
                  same_world = ground arith;
                  counter = ground arith;
                  claims = ground arith;
                },
              )
            ]
      ]

  -- A guardian trigger has the approval of as many distinct registered guardians as the plan asks for,
  -- each of whom has authorised the call. It triggers a plan that is neither frozen nor on hold, and
  -- leaves tokens, claims and vaults as they are.
  pub guardian_emergency_trigger-Approved :
      (plan_id : ℕ) (signers : List Address) (s t : Store W)
      → guardian_emergency_trigger l plan_id signers s ≡ ok (tt, t)
      → (config : GuardianConfig) × (approved : List Address) × (s.guardians plan_id ≡ some config)
        × Approving l config.guardians approved
        × (config.threshold ≤ length approved)
        × TriggeredByCall plan_id s t
  unfolding guardian_emergency_trigger get_triggerable_plan
  guardian_emergency_trigger-Approved plan_id signers s t h =
      elim (Option-cases (s.guardians plan_id)) [
        | inl missing ↦ absurd (ground arith)
        | inr (config, found) ↦
            elim (Outcome-cases (approving_guardians l config.guardians [] signers (locked s))) [
              | inr (inl (e, failed)) ↦ absurd (ground arith)
              | inr (inr trapped) ↦ absurd (ground arith)
              | inl ((approved, u), run) ↦
                  let (same, all) =
                    approving_guardians-Approving config.guardians [] signers approved (locked s) u
                      none_yet run in
                  elim (Option-cases (s.plans plan_id)) [
                    | inl missing ↦ absurd (ground arith)
                    | inr (plan, stored) ↦ (
                      config,
                      approved,
                      found,
                      all,
                      ground arith,
                      record {
                        trigger = record {
                          plan = plan;
                          found = stored;
                          active = ground arith;
                          untriggered = ground arith;
                          stored = ground arith;
                          recorded = ground arith;
                        };
                        thawed = ground arith;
                        same_world = ground arith;
                        counter = ground arith;
                        claims = ground arith;
                      },
                    )
                  ]
            ]
      ]
