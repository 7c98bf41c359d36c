-- ===== src/Lending/PlanYield/Registry.antt =====
-- contracts/lending-contract/src/lib.rs: who registers a plan's position, and the index of the plans.
use xource_x.Prelude.{
  ℕ, ◌+◌, ◌≤◌, ◌≡◌, Bool, true, false, List, [], ◌∷◌, ◌++◌, is_some, arith, ◌==◌, if◌then◌else◌,
}
use xource_x.Prelude.Lists.{length, contains}
use xource_x.Prelude.Outcome.{ok}
use xource_x.AccessControl.{Address}
use xource_x.Lending.Store.{Ledger, Store, require_initialized, ensure_not_paused, get_pool}
use xource_x.Lending.PlanYield.{
  max_plan_yield_positions, require_plan_yield_caller, index_plan_yield, set_position,
  register_plan_yield,
}
use xource_x.Lending.PlanYield.Claims.{check_plan_yield_caller_pure}

-- No id stands twice.
unfoldable pub has_no_duplicates : List ℕ → Bool
has_no_duplicates [] = true
has_no_duplicates (i ∷ rest) =
    let distinct = has_no_duplicates rest in if contains rest i then false else distinct

-- The index is bounded and without repetition, and lists every plan that has a position.
pub record IndexIsSound {W : Type 0} (s : Store W) : Type 0 where
  pub bounded : length s.plan_yield_index ≤ max_plan_yield_positions
  pub distinct : has_no_duplicates s.plan_yield_index ≡ true
  pub listed :
      (plan_id : ℕ)
      → is_some (s.plan_yields plan_id) ≡ true
      → contains s.plan_yield_index plan_id ≡ true

length-++ : (ids : List ℕ) (i : ℕ) → length (ids ++ i ∷ []) ≡ length ids + 1
unfolding length
length-++ [] i = ground arith
length-++ (j ∷ rest) i = ground (arith, length-++ rest i)

contains-++ :
    (ids : List ℕ) (i j : ℕ)
    → contains (ids ++ i ∷ []) j ≡ (if i == j then true else contains ids j)
unfolding contains
contains-++ [] i j = ground arith
contains-++ (k ∷ rest) i j = ground (arith, contains-++ rest i j)

has_no_duplicates-++ :
    (ids : List ℕ) (i : ℕ)
    → contains ids i ≡ false
    → has_no_duplicates ids ≡ true
    → has_no_duplicates (ids ++ i ∷ []) ≡ true
unfolding has_no_duplicates contains
has_no_duplicates-++ [] i new distinct = ground arith
has_no_duplicates-++ (j ∷ rest) i new distinct =
    ground (arith, contains-++ rest i j, has_no_duplicates-++ rest i)

module _ {W : Type 0} (l : Ledger) (s t : Store W) where
  register_plan_yield_index :
      (caller : Address) (plan_id : ℕ) (asset : Address) (principal : ℕ)
      → IndexIsSound s
      → register_plan_yield l caller plan_id asset principal s ≡ ok (tt, t)
      → (j : ℕ)
      → contains t.plan_yield_index j
        ≡ (if plan_id == j then true else contains s.plan_yield_index j)
  unfolding register_plan_yield require_initialized ensure_not_paused require_plan_yield_caller
      get_pool index_plan_yield set_position
  register_plan_yield_index caller plan_id asset principal sound h j =
      let caller_fact = check_plan_yield_caller_pure l s caller in
      ground (arith, sound.listed plan_id, contains-++ s.plan_yield_index plan_id j)

  -- The index stands for the set of the plans that have ever registered: a registration adds its plan
  -- to that set and no other, and keeps the index at 200 plans at most, without repetition, and
  -- listing every plan that has a position.
  pub register_plan_yield-IndexIsSound :
      (caller : Address) (plan_id : ℕ) (asset : Address) (principal : ℕ)
      → IndexIsSound s
      → register_plan_yield l caller plan_id asset principal s ≡ ok (tt, t)
      → IndexIsSound t
        × ((j : ℕ)
            → contains t.plan_yield_index j
              ≡ (if plan_id == j then true else contains s.plan_yield_index j))
  unfolding register_plan_yield require_initialized ensure_not_paused require_plan_yield_caller
      get_pool index_plan_yield set_position
  register_plan_yield-IndexIsSound caller plan_id asset principal sound h =
      let caller_fact = check_plan_yield_caller_pure l s caller in
      let index = s.plan_yield_index in
      (
        record {
          bounded = ground (arith, sound.bounded, length-++ index plan_id);
          distinct = ground (arith, sound.distinct, has_no_duplicates-++ index plan_id);
          listed = λ j present.
              ground (arith, sound.listed j, sound.listed plan_id, contains-++ index plan_id j);
        },
        register_plan_yield_index caller plan_id asset principal sound h,
      )
