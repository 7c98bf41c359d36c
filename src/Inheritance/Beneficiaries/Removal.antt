-- ===== src/Inheritance/Beneficiaries/Removal.antt =====
-- contracts/inheritance-contract/src/lib.rs: what the removal of a beneficiary does to the last one of
-- the list, who takes the free place, but not with the salt of the claim code.
use xource_x.Prelude.{
  ℕ, zero, suc, ◌-◌, ◌<◌, ◌≡◌, ◌≢◌, refl, sym, true, some, List, [], ◌∷◌, ◌++◌, arith,
}
use xource_x.Prelude.Lists.{length, get_elem?, set, pop_back}
use xource_x.Prelude.Outcome.{ok, OnSome}
use xource_x.AccessControl.{Address}
use xource_x.Inheritance.Types.{Bytes, InheritancePlan, Beneficiary}
use xource_x.Inheritance.Store.{External, Ledger, Store, bytes_eq}
use xource_x.Inheritance.Hashing.{six_digits}
use xource_x.Inheritance.Beneficiaries.{swap_remove, remove_beneficiary}
use xource_x.Inheritance.Claims.Search.{Fits, code_hash}

bytes_eq-eq : (a b : Bytes) → bytes_eq a b ≡ true → a ≡ b
unfolding bytes_eq
bytes_eq-eq [] [] h = refl
bytes_eq-eq [] (d ∷ b) h = absurd (ground arith)
bytes_eq-eq (c ∷ a) [] h = absurd (ground arith)
bytes_eq-eq (c ∷ a) (d ∷ b) h = ground (arith, bytes_eq-eq a b)

append_prefix : (a b c d : Bytes) → length a ≡ length b → a ++ c ≡ b ++ d → a ≡ b
unfolding length
append_prefix [] [] c d n h = refl
append_prefix [] (y ∷ b) c d n h = absurd (omega arith)
append_prefix (x ∷ a) [] c d n h = absurd (omega arith)
append_prefix (x ∷ a) (y ∷ b) c d n h = ground (arith, append_prefix a b c d)

get_elem?-pop_back {ℓ} :
    {A : Type ℓ} (xs : List A) (i : ℕ)
    → i < length xs - 1
    → get_elem? (pop_back xs) i ≡ get_elem? xs i
unfolding get_elem? pop_back length
get_elem?-pop_back [] i h = absurd (omega arith)
get_elem?-pop_back (x ∷ []) i h = absurd (omega arith)
get_elem?-pop_back (x ∷ y ∷ xs) zero h = refl
get_elem?-pop_back (x ∷ y ∷ xs) (suc i) h = get_elem?-pop_back (y ∷ xs) i (omega arith)

get_elem?-set {ℓ} :
    {A : Type ℓ} (xs : List A) (i : ℕ) (v : A)
    → i < length xs
    → (get_elem? (set xs i v) i ≡ some v) × (length (set xs i v) ≡ length xs)
unfolding get_elem? set length
get_elem?-set [] i v h = absurd (omega arith)
get_elem?-set (x ∷ xs) zero v h = (refl, refl)
get_elem?-set (x ∷ xs) (suc i) v h =
    let (at, n) = get_elem?-set xs i v (omega arith) in (at, omega arith)

-- The last element takes the place of the removed one.
get_elem?-swap_remove {ℓ} :
    {A : Type ℓ} (xs : List A) (i : ℕ) (moved : A)
    → i < length xs - 1
    → get_elem? xs (length xs - 1) ≡ some moved
    → get_elem? (swap_remove xs i) i ≡ some moved
unfolding swap_remove
get_elem?-swap_remove xs i moved h last =
    let (at, n) = get_elem?-set xs i moved (omega arith) in
    ground (arith, at, n, last, get_elem?-pop_back (set xs i moved) i)

-- Where no two texts have the same hash: a removal gives the place of the removed beneficiary to the
-- last one, but leaves the salts where they are. If the salts of the two differ, and are of the same
-- length, then no claim code fits the moved beneficiary any more, whatever email is given, so no claim
-- can find it there.
pub remove_beneficiary-Stranded :
    (x : External) (l : Ledger) (owner : Address) (id index : ℕ) (plan : InheritancePlan)
    (moved : Beneficiary) (old_salt salt : Bytes) (code : ℕ) (hashed_email : Bytes) (given : ℕ)
    (s t : Store x.World)
    → ((a b : Bytes) → x.sha256 a ≡ x.sha256 b → a ≡ b)
    → s.plans id ≡ some plan
    → index < length plan.beneficiaries - 1
    → get_elem? plan.beneficiaries (length plan.beneficiaries - 1) ≡ some moved
    → moved.hashed_claim_code ≡ x.sha256 (salt ++ six_digits code)
    → s.salts id index ≡ some old_salt
    → length old_salt ≡ length salt
    → old_salt ≢ salt
    → remove_beneficiary l owner id index s ≡ ok (tt, t)
    → OnSome (λ q. get_elem? q.beneficiaries index ≡ some moved) (t.plans id)
      × (¬ Fits x t id hashed_email given index moved)
unfolding remove_beneficiary
remove_beneficiary-Stranded x l owner id index plan moved old_salt salt code hashed_email given s t
      inj found below last hashed salted same differ h =
    (
      ground (arith, get_elem?-swap_remove plan.beneficiaries index moved below last),
      λ fits.
          let salts : t.salts id index ≡ some old_salt = ground arith in
          let equal = bytes_eq-eq moved.hashed_claim_code (code_hash x t id index given) fits.1 in
          let hashes : x.sha256 (salt ++ six_digits code)
              ≡ x.sha256 (old_salt ++ six_digits given) =
            ground (arith, equal) in
          differ (
            sym (
              append_prefix salt old_salt (six_digits code) (six_digits given) (sym same)
                (inj _ _ hashes))),
    )
