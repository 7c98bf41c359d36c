-- ===== src/Inheritance/Plans/Funding.antt =====
-- contracts/inheritance-contract/src/lib.rs: the vault of a new plan, and how it is funded.
use xource_x.Prelude.{
  ℕ, ◌-◌, ◌≡◌, refl, subst, Option, some, List, [], ◌∷◌, arith, ltb, if◌then◌else◌, Option-cases,
  inl, inr,
}
use xource_x.Prelude.Words.{u32_mod, saturating_add_u32}
use xource_x.Prelude.Outcome.{ok, >>=-eq-ok}
use xource_x.Prelude.Dict.{update, or_default}
use xource_x.AccessControl.{Address}
use xource_x.Inheritance.Types.{Bytes, Beneficiary, BeneficiaryInput, CreateInheritancePlanParams}
use xource_x.Inheritance.Store.{External, Ledger, Store, add_below, increment_plan_id}
use xource_x.Inheritance.Vaults.{deploy_plan_vault}
use xource_x.Inheritance.Beneficiaries.{create_beneficiary, create_beneficiaries}
use xource_x.Inheritance.Plans.{creation_fee, fund_plan}

module _ (x : External) where
  open x use {World}

  -- Only random numbers are drawn between the two.
  pub data Drawn : World → World → Type 0 where
    none_drawn : {w : World} → Drawn w w
    drawn : {w w' : World} → Drawn (x.gen w).1 w' → Drawn w w'

  pub create_beneficiaries-Drawn :
      (plan_id index total : ℕ) (bs : List BeneficiaryInput) (made : List Beneficiary × ℕ)
      (s t : Store World)
      → create_beneficiaries x plan_id index total bs s ≡ ok (made, t)
      → Drawn s.world t.world
  unfolding create_beneficiaries create_beneficiary
  create_beneficiaries-Drawn plan_id index total [] made s t h =
      subst (Drawn s.world) (ground arith) none_drawn
  create_beneficiaries-Drawn plan_id index total (b ∷ bs) made s t h =
      let (first, s1, e1, k1) = >>=-eq-ok (create_beneficiary x plan_id index b) _ s h in
      let (sum, s2, e2, k2) = >>=-eq-ok (add_below u32_mod total b.allocation_bp) _ s1 k1 in
      let (rest, s3, e3, k3) =
        >>=-eq-ok (create_beneficiaries x plan_id (saturating_add_u32 index 1) sum bs) _ s2 k2 in
      let others =
        create_beneficiaries-Drawn plan_id (saturating_add_u32 index 1) sum bs rest s2 s3 e3 in
      let one : s2.world ≡ (x.gen s.world).1 = ground arith in
      let last : s3.world ≡ t.world = ground arith in
      drawn (subst (λ w. Drawn w t.world) one (subst (Drawn s2.world) last others))

  module _ (l : Ledger) (params : CreateInheritancePlanParams) (id : ℕ) (admin : Address) where
    -- From `s` on, the creation fee has gone to the admin, unless that transfer failed; a vault was
    -- deployed for the id and initialized for the owner; and the rest has gone from the owner to it,
    -- which left the tokens as `funded`. The vault stands under the id in `vaults`.
    pub record VaultFunded (s : Store World) (funded : World) (vaults : ℕ → Option Address)
        : Type 0 where
      pub code : Bytes
      pub vault : Address
      pub charged : World
      pub deployed : World
      pub initialized : World
      pub fee : charged ≡ (
          if ltb 0 (creation_fee params.total_amount)
          then or_default s.world (
              x.transfer params.token params.owner admin (creation_fee params.total_amount) s.world)
          else s.world)
      pub configured : s.vault_wasm ≡ some code
      pub made : x.deploy code id charged ≡ some (vault, deployed)
      pub controlled : x.initialize vault l.contract_id params.owner id deployed ≡ some initialized
      pub paid :
          x.transfer params.token params.owner vault
            (params.total_amount - creation_fee params.total_amount)
            initialized
          ≡ some funded
      pub stored : vaults ≡ update id (some vault) s.plan_vaults

    fund_plan-after_fee :
        (charged : World) (s t : Store World)
        → charged ≡ (
            if ltb 0 (creation_fee params.total_amount)
            then or_default s.world (
                x.transfer params.token params.owner admin
                  (creation_fee params.total_amount)
                  s.world)
            else s.world)
        → fund_plan x l params admin s ≡ ok (id, t)
        → VaultFunded s t.world t.plan_vaults
    unfolding fund_plan increment_plan_id deploy_plan_vault
    fund_plan-after_fee charged s t fee h = elim (Option-cases s.vault_wasm) [
      | inl unset ↦ absurd (ground arith)
      | inr (code, set) ↦ elim (Option-cases (x.deploy code id charged)) [
        | inl failed ↦ absurd (ground arith)
        | inr ((vault, deployed), made) ↦
            elim (Option-cases (x.initialize vault l.contract_id params.owner id deployed)) [
              | inl failed ↦ absurd (ground arith)
              | inr (initialized, controlled) ↦ record {
                code = code;
                vault = vault;
                charged = charged;
                deployed = deployed;
                initialized = initialized;
                fee = fee;
                configured = set;
                made = made;
                controlled = controlled;
                paid = ground arith;
                stored = ground arith;
              }
            ]
      ]
    ]

    pub fund_plan-VaultFunded :
        (s t : Store World)
        → fund_plan x l params admin s ≡ ok (id, t)
        → VaultFunded s t.world t.plan_vaults
    fund_plan-VaultFunded s t h = fund_plan-after_fee _ s t refl h
