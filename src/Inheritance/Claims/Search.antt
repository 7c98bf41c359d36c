-- ===== src/Inheritance/Claims/Search.antt =====
-- contracts/inheritance-contract/src/lib.rs: whom a claim finds, by email and claim code.
use xource_x.Prelude.{
  ℕ, zero, suc, ◌+◌, ◌-◌, ◌≤◌, ◌<◌, ◌≡◌, refl, ap, ◌∙◌, Bool, true, false, ◌&&◌, none, some, List,
  [], ◌∷◌, ◌++◌, arith, Bool-cases, inl, inr,
}
use xource_x.Prelude.Lists.{get_elem?, take}
use xource_x.Prelude.Outcome.{ok, Outcome-cases}
use xource_x.Prelude.Dict.{or_default}
use xource_x.Inheritance.Types.{Bytes, InheritancePlan, Beneficiary}
use xource_x.Inheritance.Store.{External, Store, bytes_eq}
use xource_x.Inheritance.Hashing.{
  zero_salt, six_digits, hash_string, hash_claim_code_with_salt, claim_key,
}
use xource_x.Inheritance.Claims.{Claim, max_beneficiaries, must_wait, find_beneficiary, identify}

get_elem?-take {ℓ} :
    {A : Type ℓ} (n : ℕ) (xs : List A) (i : ℕ) (v : A)
    → get_elem? (take n xs) i ≡ some v
    → get_elem? xs i ≡ some v
unfolding get_elem? take
get_elem?-take zero xs i v h = absurd (ground arith)
get_elem?-take (suc n) [] i v h = absurd (ground arith)
get_elem?-take (suc n) (x ∷ xs) zero v h = h
get_elem?-take (suc n) (x ∷ xs) (suc i) v h = get_elem?-take n xs i v h

get_elem?-here {ℓ} :
    {A : Type ℓ} (x : A) (xs : List A) (k : ℕ) → k ≡ 0 → get_elem? (x ∷ xs) k ≡ some x
unfolding get_elem?
get_elem?-here x xs zero h = refl
get_elem?-here x xs (suc k) h = absurd (omega arith)

get_elem?-there {ℓ} :
    {A : Type ℓ} (x : A) (xs : List A) (k m : ℕ) → k ≡ m + 1 → get_elem? (x ∷ xs) k ≡ get_elem? xs m
unfolding get_elem?
get_elem?-there x xs zero m h = absurd (omega arith)
get_elem?-there x xs (suc k) m h = ap (get_elem? xs) (omega arith)

module _ (x : External) where
  open x use {World, sha256}

  -- The hash of a claim code with the salt of a beneficiary.
  abbrev pub code_hash : Store World → ℕ → ℕ → ℕ → Bytes
  code_hash s plan_id index claim_code =
      sha256 (or_default zero_salt (s.salts plan_id index) ++ six_digits claim_code)

  -- A beneficiary that email and code fit.
  abbrev pub Fits : Store World → ℕ → Bytes → ℕ → ℕ → Beneficiary → Type 0
  Fits s plan_id hashed_email claim_code index b =
      (bytes_eq b.hashed_email hashed_email ≡ true)
      × (bytes_eq b.hashed_claim_code (code_hash s plan_id index claim_code) ≡ true)
      × (claim_code < 1_000_000)

  find_beneficiary-Fits :
      (plan_id : ℕ) (hashed_email : Bytes) (claim_code i : ℕ) (bs : List Beneficiary) (j : ℕ)
      (b : Beneficiary) (s t : Store World)
      → find_beneficiary x plan_id hashed_email claim_code i bs s ≡ ok (some (j, b), t)
      → (t ≡ s)
        × (i ≤ j)
        × (get_elem? bs (j - i) ≡ some b)
        × Fits s plan_id hashed_email claim_code j b
  unfolding find_beneficiary hash_claim_code_with_salt get_elem?
  find_beneficiary-Fits plan_id hashed_email claim_code i [] j b s t h = absurd (ground arith)
  find_beneficiary-Fits plan_id hashed_email claim_code i (c ∷ bs) j b s t h =
      elim (Bool-cases (
        bytes_eq c.hashed_email hashed_email
        && bytes_eq c.hashed_claim_code (code_hash s plan_id i claim_code))) [
          | inl here ↦
              let same : j ≡ i = ground arith in
              let found : c ≡ b = ground arith in
              (
                ground arith,
                omega arith,
                get_elem?-here c bs (j - i) (omega arith) ∙ ap some found,
                ground arith,
              )
          | inr further ↦
              let again : find_beneficiary x plan_id hashed_email claim_code (i + 1) bs s
                  ≡ ok (some (j, b), t) =
                ground arith in
              let (same, above, at, fits) =
                find_beneficiary-Fits plan_id hashed_email claim_code (i + 1) bs j b s t again in
              (
                same,
                omega arith,
                get_elem?-there c bs (j - i) (j - (i + 1)) (omega arith) ∙ at,
                fits,
              )
        ]

  -- What a claim has found: the beneficiary of the plan whose email and code were given, who is not
  -- frozen, need not wait, and under whose email nothing has been claimed.
  pub record Identified (s : Store World) (plan_id : ℕ) (plan : InheritancePlan) (email : Bytes)
      (claim_code : ℕ) (c : Claim) : Type 0 where
    pub of_plan : c.plan ≡ plan
    pub email_hash : c.hashed_email ≡ sha256 email
    pub at_index : get_elem? plan.beneficiaries c.index ≡ some c.beneficiary
    pub fits : Fits s plan_id (sha256 email) claim_code c.index c.beneficiary
    pub first_claim : s.claims (claim_key x plan_id (sha256 email)) ≡ none
    pub not_frozen : s.frozen_beneficiaries plan_id c.index ≡ false
    pub in_turn :
        plan.waterfall_enabled ≡ true
        → must_wait c.beneficiary.priority (take max_beneficiaries plan.beneficiaries) ≡ false

  pub identify-Identified :
      (plan_id : ℕ) (plan : InheritancePlan) (triggered : Bool) (email : Bytes) (claim_code : ℕ)
      (c : Claim) (s t : Store World)
      → identify x plan_id plan triggered email claim_code s ≡ ok (c, t)
      → (t ≡ s) × (c.triggered ≡ triggered) × Identified s plan_id plan email claim_code c
  unfolding identify hash_string
  identify-Identified plan_id plan triggered email claim_code c s t h =
      let first = take max_beneficiaries plan.beneficiaries in
      elim (Outcome-cases (find_beneficiary x plan_id (sha256 email) claim_code 0 first s)) [
        | inr (inl (e, failed)) ↦ absurd (ground arith)
        | inr (inr trapped) ↦ absurd (ground arith)
        | inl ((none, u), search) ↦ absurd (ground arith)
        | inl ((some (j, b), u), search) ↦
            let (same, above, at, fits) =
              find_beneficiary-Fits plan_id (sha256 email) claim_code 0 first j b s u search in
            let found = get_elem?-take max_beneficiaries plan.beneficiaries (j - 0) b at in
            let index : c.index ≡ j - 0 = ground arith in
            let who : c.beneficiary ≡ b = ground arith in
            (
              ground arith,
              ground arith,
              record {
                of_plan = ground arith;
                email_hash = ground arith;
                at_index = rw index (rw who found);
                fits = ground arith;
                first_claim = ground arith;
                not_frozen = ground arith;
                in_turn = λ on. ground arith;
              },
            )
      ]
