-- ===== src/Inheritance/Plans/Creation.antt =====
-- contracts/inheritance-contract/src/lib.rs: what the creation of a plan has checked and done, and the
-- replacement of its beneficiaries.
use xource_x.Prelude.{
  ℕ, ◌+◌, ◌-◌, ◌<◌, ◌≡◌, refl, subst, Option, true, false, some, List, [], ◌∷◌, arith, Option-cases,
  inl, inr, is_some,
}
use xource_x.Prelude.Outcome.{ok, pure, ◌>>◌, >>=-eq-ok}
use xource_x.Prelude.Dict.{update, or_default}
use xource_x.AccessControl.{Address, Role, assign_role}
use xource_x.Inheritance.Types.{
  InheritancePlan, CreateInheritancePlanParams, KycStatus, GuardianConfig,
}
use xource_x.Inheritance.Store.{
  External, Ledger, Store, access_call, check_not_paused, enter_guard, exit_guard,
  check_kyc_approved, store_plan, add_plan_to_user, assign_role_to_all, increment_plan_id,
}
use xource_x.Inheritance.Vaults.{deploy_plan_vault}
use xource_x.Inheritance.Beneficiaries.{validate_beneficiaries, create_beneficiaries}
use xource_x.Inheritance.Allocations.{validate_beneficiaries-sum}
use xource_x.Inheritance.Books.{PlanIsSound, SameClaims, locked, create_beneficiaries-sum}
use xource_x.Inheritance.Plans.Funding.{
  Drawn, VaultFunded, create_beneficiaries-Drawn, fund_plan-VaultFunded,
}
use xource_x.Inheritance.Plans.{
  usdc, creation_fee, validate_plan_inputs, register_guardians, admit_plan, fund_plan, record_plan,
  create_inheritance_plan,
}

module _ {W : Type 0} where
  -- At most roles and the like have changed.
  abbrev pub OnlyRoles : Store W → Store W → Type 0
  OnlyRoles s t = t ≡ record s { access = t.access }

  pub assign_role_to_all-OnlyRoles :
      (who : List Address) (role : Role) (s t : Store W)
      → assign_role_to_all who role s ≡ ok (tt, t)
      → OnlyRoles s t
  unfolding assign_role_to_all assign_role
  assign_role_to_all-OnlyRoles [] role s t h = ground arith
  assign_role_to_all-OnlyRoles (a ∷ rest) role s t h =
      let (one, u, e, k) = >>=-eq-ok (access_call (assign_role a role)) _ s h in
      let first : OnlyRoles s u = ground arith in
      ground (arith, assign_role_to_all-OnlyRoles rest role u t k)

  register_guardians-lem :
      (plan_id : ℕ) (guardians : List Address) (threshold : ℕ) (s t : Store W)
      → register_guardians plan_id guardians threshold s ≡ ok (tt, t)
      → t ≡ record s { access = t.access; guardians = t.guardians }
  unfolding register_guardians
  register_guardians-lem plan_id [] threshold s t h = ground arith
  register_guardians-lem plan_id (g ∷ rest) threshold s t h =
      let config : GuardianConfig = record { guardians = g ∷ rest; threshold = threshold } in
      let u = record s { guardians = update plan_id (some config) s.guardians } in
      ground (arith, assign_role_to_all-OnlyRoles (g ∷ rest) Role.guardian u t)

-- What the creation of a plan has stored: a plan in order, under an id that was next.
pub record PlanCreated {W : Type 0} (l : Ledger) (params : CreateInheritancePlanParams) (id : ℕ)
    (s t : Store W) : Type 0 where
  pub plan : InheritancePlan
  pub by_owner : l.authorized params.owner ≡ true
  pub approved : (k : KycStatus) × (s.kyc params.owner ≡ some k) × (k.approved ≡ true)
  pub next : id ≡ or_default 1 s.next_plan_id
  pub counter : t.next_plan_id ≡ some (id + 1)
  pub stored : t.plans ≡ update id (some plan) s.plans
  pub owned : plan.owner ≡ params.owner
  pub net : plan.total_amount + creation_fee params.total_amount ≡ params.total_amount
  pub positive : 0 < plan.total_amount
  pub whole : plan.total_allocation_bp ≡ 10_000
  pub sound : PlanIsSound plan
  pub vaulted : is_some (t.plan_vaults id) ≡ true
  pub claims : t.claims ≡ s.claims

module _ (x : External) (l : Ledger) where
  open x use {World}

  -- The admin got the fee and the vault the rest.
  abbrev pub PlanFunded : CreateInheritancePlanParams → ℕ → Store World → Store World → Type 0
  PlanFunded params id s t =
      (admin : Address) × (funded : World) × (s.admin ≡ some admin)
      × VaultFunded x l params id admin s funded t.plan_vaults
      × Drawn x funded t.world

  admit_plan-lem :
      (params : CreateInheritancePlanParams) (admin : Address) (s t : Store World)
      → admit_plan x l params s ≡ ok (admin, t)
      → (l.authorized params.owner ≡ true)
        × ((k : KycStatus) × (s.kyc params.owner ≡ some k) × (k.approved ≡ true))
        × (creation_fee params.total_amount < params.total_amount)
        × (s.admin ≡ some admin)
        × (t ≡ locked s)
  unfolding admit_plan check_not_paused enter_guard check_kyc_approved validate_plan_inputs
  admit_plan-lem params admin s t h = elim (Option-cases (s.kyc params.owner)) [
    | inl missing ↦ absurd (ground arith)
    | inr (k, status) ↦
        (ground arith, (k, status, ground arith), ground arith, ground arith, ground arith)
  ]

  -- A vault is stored under the id that was next; the plans are as they were.
  fund_plan-lem :
      (params : CreateInheritancePlanParams) (admin : Address) (id : ℕ) (s t : Store World)
      → fund_plan x l params admin s ≡ ok (id, t)
      → (id ≡ or_default 1 s.next_plan_id)
        × (t.next_plan_id ≡ some (id + 1))
        × (t.plans ≡ s.plans)
        × (is_some (t.plan_vaults id) ≡ true)
        × (t.claims ≡ s.claims)
  unfolding fund_plan increment_plan_id deploy_plan_vault
  fund_plan-lem params admin id s t h = ground arith

  record_plan-lem :
      (params : CreateInheritancePlanParams) (id : ℕ) (s t : Store World)
      → creation_fee params.total_amount < params.total_amount
      → record_plan x l params id s ≡ ok (tt, t)
      → (plan : InheritancePlan) × (t.plans ≡ update id (some plan) s.plans)
        × (plan.owner ≡ params.owner)
        × (plan.total_amount + creation_fee params.total_amount ≡ params.total_amount)
        × (plan.total_allocation_bp ≡ 10_000)
        × PlanIsSound plan
        × (t.next_plan_id ≡ s.next_plan_id)
        × SameClaims s t
        × Drawn x s.world t.world
  unfolding record_plan store_plan add_plan_to_user assign_role
  record_plan-lem params id s t fee h =
      let data_of = params.beneficiaries_data in
      let (done, u, e1, k1) = >>=-eq-ok (validate_beneficiaries data_of) _ s h in
      let (asked, few, same) = validate_beneficiaries-sum data_of s u e1 in
      let (made, v, e2, k2) = >>=-eq-ok (create_beneficiaries x id 0 0 data_of) _ u k1 in
      let (total, sum, count, kept) = create_beneficiaries-sum x id 0 0 data_of made u v e2 in
      let salted = create_beneficiaries-Drawn x id 0 0 data_of made u v e2 in
      let before : u.world ≡ s.world = ground arith in
      let after : v.world ≡ t.world = ground arith in
      (
        record {
          plan_name = params.plan_name;
          description = params.description;
          token = params.token;
          asset_type = usdc;
          total_amount = params.total_amount - creation_fee params.total_amount;
          distribution_method = params.distribution_method;
          beneficiaries = made.0;
          total_allocation_bp = made.1;
          owner = params.owner;
          created_at = l.timestamp;
          is_active = true;
          is_lendable = params.is_lendable;
          total_loaned = 0;
          waterfall_enabled = false;
          grace_period = 0;
          earn_yield = false;
        },
        ground arith,
        refl,
        omega arith,
        omega arith,
        record {
          allocated = omega arith;
          within = omega arith;
          counted = omega arith;
          unlent = refl;
        },
        ground arith,
        ground arith,
        subst (λ w. Drawn x w t.world) before (subst (Drawn x u.world) after salted),
      )

  -- What the vault got, as seen from before the call.
  vault_before :
      (params : CreateInheritancePlanParams) (id : ℕ) (admin : Address) (s : Store World)
      (funded : World) (vaults : ℕ → Option Address)
      → VaultFunded x l params id admin (locked s) funded vaults
      → VaultFunded x l params id admin s funded vaults
  vault_before params id admin s funded vaults v = record {
    code = v.code;
    vault = v.vault;
    charged = v.charged;
    deployed = v.deployed;
    initialized = v.initialized;
    fee = v.fee;
    configured = v.configured;
    made = v.made;
    controlled = v.controlled;
    paid = v.paid;
    stored = v.stored;
  }

  PlanCreated-stages :
      (params : CreateInheritancePlanParams) (admin : Address) (id out : ℕ)
      (s s1 s2 s3 s4 t : Store World)
      → admit_plan x l params s ≡ ok (admin, s1)
      → fund_plan x l params admin s1 ≡ ok (id, s2)
      → record_plan x l params id s2 ≡ ok (tt, s3)
      → register_guardians id params.guardians params.guardian_threshold s3 ≡ ok (tt, s4)
      → (exit_guard >> pure id) s4 ≡ ok (out, t)
      → PlanCreated l params out s t × PlanFunded params out s t
  unfolding exit_guard
  PlanCreated-stages params admin id out s s1 s2 s3 s4 t e1 e2 e3 e4 e5 =
      let (auth, kyc, fee, treasurer, only) = admit_plan-lem params admin s s1 e1 in
      let (next, counter, same, vaulted, claims) = fund_plan-lem params admin id s1 s2 e2 in
      let (plan, stored, owned, net, whole, sound, kept, same', salted) =
        record_plan-lem params id s2 s3 fee e3 in
      let guards = register_guardians-lem id params.guardians params.guardian_threshold s3 s4 e4 in
      let same_id : id ≡ out = ground arith in
      let last : s3.world ≡ t.world = ground arith in
      let vaults : s2.plan_vaults ≡ t.plan_vaults = ground arith in
      let funded = vault_before params id admin s s2.world s2.plan_vaults (
        subst (λ u. VaultFunded x l params id admin u s2.world s2.plan_vaults) only
          (fund_plan-VaultFunded x l params id admin s1 s2 e2)) in
      let created : PlanCreated l params out s t = record {
        plan = plan;
        by_owner = auth;
        approved = kyc;
        next = ground arith;
        counter = ground arith;
        stored = ground arith;
        owned = owned;
        net = net;
        positive = omega arith;
        whole = whole;
        sound = sound;
        vaulted = ground arith;
        claims = ground arith;
      } in
      (
        created,
        (
          admin,
          s2.world,
          treasurer,
          subst (λ i. VaultFunded x l params i admin s s2.world t.plan_vaults) same_id
              (subst (VaultFunded x l params id admin s s2.world) vaults funded),
          subst (Drawn x s2.world) last salted,
        ),
      )

  -- A successful creation was authorised by an owner whose KYC is approved. It stores one new plan of
  -- that owner, under the id that was next: its total is the given amount less the creation fee and
  -- above 0, its allocations sum up to 100%, and it is in order. The fee went to the contract's admin,
  -- unless that transfer failed; then a vault was deployed for the id, initialized with this contract
  -- as its controller, and stored under the id, and the rest went from the owner to that vault. After
  -- this only random numbers are drawn. No claim changes.
  pub create_inheritance_plan-PlanCreated :
      (params : CreateInheritancePlanParams) (id : ℕ) (s t : Store World)
      → create_inheritance_plan x l params s ≡ ok (id, t)
      → PlanCreated l params id s t × PlanFunded params id s t
  unfolding create_inheritance_plan
  create_inheritance_plan-PlanCreated params id s t h =
      let (admin, s1, e1, k1) = >>=-eq-ok (admit_plan x l params) _ s h in
      let (id', s2, e2, k2) = >>=-eq-ok (fund_plan x l params admin) _ s1 k1 in
      let (d, s3, e3, k3) = >>=-eq-ok (record_plan x l params id') _ s2 k2 in
      let (d', s4, e4, k4) =
        >>=-eq-ok (register_guardians id' params.guardians params.guardian_threshold) _ s3 k3 in
      PlanCreated-stages params admin id' id s s1 s2 s3 s4 t e1 e2 e3 e4 k4
