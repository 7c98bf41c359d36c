-- ===== src/Prelude/Lists.antt =====
-- Lists as a `soroban_sdk::Vec` holds them.
use mathlib.Core.Bool.{Bool, false, ◌||◌}
use mathlib.Core.Option.{Option, none, some}
use mathlib.Core.List.{List, [], ◌∷◌}
use Prim.Native.Nat.{ℕ, zero, suc, ◌+◌}
use xource_x.Prelude.Tests.{◌==◌}

module _ {ℓ} {A : Type ℓ} where
  -- `len`
  unfoldable pub length : List A → ℕ
  length [] = 0
  length (i ∷ rest) = 1 + length rest

  unfoldable pub is_empty : List A → Bool
  is_empty [] = Bool.true
  is_empty (i ∷ rest) = false

  -- `get(i)`
  unfoldable pub get_elem? : List A → ℕ → Option A
  get_elem? [] i = none
  get_elem? (x ∷ rest) zero = some x
  get_elem? (x ∷ rest) (suc i) = get_elem? rest i

  -- `set(i, v)` at an index that is in range
  unfoldable pub set : List A → ℕ → A → List A
  set [] i v = []
  set (x ∷ rest) zero v = v ∷ rest
  set (x ∷ rest) (suc i) v = x ∷ set rest i v

  -- The first elements, as many as are asked for.
  unfoldable pub take : ℕ → List A → List A
  take zero xs = []
  take (suc n) [] = []
  take (suc n) (x ∷ rest) = x ∷ take n rest

  -- `pop_back()`
  unfoldable pub pop_back : List A → List A
  pop_back [] = []
  pop_back (x ∷ []) = []
  pop_back (x ∷ y ∷ rest) = x ∷ pop_back (y ∷ rest)

-- `contains` of a list of ids.
unfoldable pub contains : List ℕ → ℕ → Bool
contains [] id = false
contains (i ∷ rest) id = (i == id) || contains rest id

-- `iter().sum()`
unfoldable pub sum_of : List ℕ → ℕ
sum_of [] = 0
sum_of (n ∷ rest) = n + sum_of rest
