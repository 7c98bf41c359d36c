-- ===== src/LoanNft/Owners.antt =====
-- Counting the entries of an owner map: how many NFTs an address owns, and how many there are.
use xource_x.Prelude.{
  ℕ, ◌+◌, ◌≡◌, refl, Bool, true, false, Option, none, some, [], ◌∷◌, arith, ◌==◌,
}
use xource_x.Prelude.Dict.{Dict, lookup, insert, erase, lookup-insert, lookup-erase}

-- 1 where the test holds.
abbrev pub one_if : Bool → ℕ
one_if true = 1
one_if false = 0

-- How many keys hold `v`.
unfoldable pub count : ℕ → Dict ℕ → ℕ
count v [] = 0
count v (e ∷ d) = one_if (e.1 == v) + count v d

unfoldable pub size : Dict ℕ → ℕ
size [] = 0
size (e ∷ d) = 1 + size d

-- No key is held twice.
unfoldable pub IsDistinct : Dict ℕ → Type 0
IsDistinct [] = Unit
IsDistinct (e ∷ d) = (lookup e.0 d ≡ none) × IsDistinct d

-- What the map counts at a key.
abbrev pub counted : ℕ → Option ℕ → ℕ
counted v none = 0
counted v (some w) = one_if (w == v)

abbrev pub present : Option ℕ → ℕ
present none = 0
present (some w) = 1

pub count-insert :
    (v k w : ℕ) (d : Dict ℕ)
    → count v (insert k w d) + counted v (lookup k d) ≡ count v d + one_if (w == v)
unfolding count insert lookup
count-insert v k w [] = omega arith
count-insert v k w (e ∷ d) = ground (arith, count-insert v k w d)

pub size-insert : (k w : ℕ) (d : Dict ℕ) → size (insert k w d) + present (lookup k d) ≡ size d + 1
unfolding size insert lookup
size-insert k w [] = omega arith
size-insert k w (e ∷ d) = ground (arith, size-insert k w d)

pub insert-IsDistinct : (k w : ℕ) (d : Dict ℕ) → IsDistinct d → IsDistinct (insert k w d)
unfolding IsDistinct insert lookup
insert-IsDistinct k w [] h = (refl, tt)
insert-IsDistinct k w (e ∷ d) h =
    ground (arith, insert-IsDistinct k w d h.1, lookup-insert k e.0 w d)

pub erase-IsDistinct : (k : ℕ) (d : Dict ℕ) → IsDistinct d → IsDistinct (erase k d)
unfolding IsDistinct erase
erase-IsDistinct k [] h = tt
erase-IsDistinct k (e ∷ d) h = ground (arith, erase-IsDistinct k d h.1, lookup-erase k e.0 d)

-- A key that is not held is not erased.
erase-absent : (k : ℕ) (d : Dict ℕ) → lookup k d ≡ none → erase k d ≡ d
unfolding erase lookup
erase-absent k [] h = refl
erase-absent k (e ∷ d) h = ground (arith, erase-absent k d)

pub count-erase :
    (v k : ℕ) (d : Dict ℕ) → IsDistinct d → count v (erase k d) + counted v (lookup k d) ≡ count v d
unfolding count erase lookup IsDistinct
count-erase v k [] h = omega arith
count-erase v k (e ∷ d) h = ground (arith, count-erase v k d h.1, erase-absent k d)

pub size-erase :
    (k : ℕ) (d : Dict ℕ) → IsDistinct d → size (erase k d) + present (lookup k d) ≡ size d
unfolding size erase lookup IsDistinct
size-erase k [] h = omega arith
size-erase k (e ∷ d) h = ground (arith, size-erase k d h.1, erase-absent k d)
