-- ===== src/Prelude/Dict.antt =====
-- Storage maps from addresses and ids: an association list, so that what is stored can be summed.
use mathlib.Core.Option.{Option, none, some}
use mathlib.Core.List.{List, [], ◌∷◌}
use mathlib.Core.Path.{◌≡◌, refl}
use Prim.Native.Nat.{ℕ, ◌+◌}
use native.Mathlib.Omega.{arith}
use xource_x.Prelude.Tests.{◌==◌, if◌then◌else◌}

abbrev pub Dict {ℓ} : Type ℓ → Type ℓ
Dict V = List (ℕ × V)

module _ {ℓ} {V : Type ℓ} where
  -- `storage.get(&key)`
  unfoldable pub lookup : ℕ → Dict V → Option V
  lookup k [] = none
  lookup k (e ∷ d) = if e.0 == k then some e.1 else lookup k d

  -- `storage.set(&key, &value)`
  unfoldable pub insert : ℕ → V → Dict V → Dict V
  insert k v [] = (k, v) ∷ []
  insert k v (e ∷ d) = if e.0 == k then (k, v) ∷ d else e ∷ insert k v d

  -- `storage.remove(&key)`
  unfoldable pub erase : ℕ → Dict V → Dict V
  erase k [] = []
  erase k (e ∷ d) = let rest = erase k d in if e.0 == k then rest else e ∷ rest

  pub lookup-insert :
      (k j : ℕ) (v : V) (d : Dict V)
      → lookup j (insert k v d) ≡ (if k == j then some v else lookup j d)
  unfolding lookup insert
  lookup-insert k j v [] = refl
  lookup-insert k j v (e ∷ d) = ground (arith, lookup-insert k j v d)

  pub lookup-erase :
      (k j : ℕ) (d : Dict V) → lookup j (erase k d) ≡ (if k == j then none else lookup j d)
  unfolding lookup erase
  lookup-erase k j [] = ground arith
  lookup-erase k j (e ∷ d) = ground (arith, lookup-erase k j d)

-- `.unwrap_or(default)`
abbrev pub or_default {ℓ} : {A : Type ℓ} → A → Option A → A
or_default d none = d
or_default d (some a) = a

-- The sum of the numbers that are stored.
unfoldable pub sum : Dict ℕ → ℕ
sum [] = 0
sum (e ∷ d) = e.1 + sum d

-- A write replaces what the key held in the sum.
pub sum-insert : (k v : ℕ) (d : Dict ℕ) → sum (insert k v d) + or_default 0 (lookup k d) ≡ sum d + v
unfolding sum insert lookup
sum-insert k v [] = omega arith
sum-insert k v (e ∷ d) = ground (arith, sum-insert k v d)

-- A storage map whose contents are never summed: a total function, changed at one key.
abbrev pub update {ℓ} : {A : Type ℓ} → ℕ → A → (ℕ → A) → ℕ → A
update k v m j = if k == j then v else m j

pub update_self {ℓ} : {A : Type ℓ} (k : ℕ) (v : A) (m : ℕ → A) → update k v m k ≡ v
update_self k v m = ground arith
