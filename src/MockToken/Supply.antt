-- ===== src/MockToken/Supply.antt =====
-- The supply: the balances of a sound token are never negative and add up to its total supply.
use xource_x.Prelude.{ℕ, ◌+◌, ◌≡◌, Bool, [], ◌∷◌, arith}
use xource_x.Prelude.Int.{ℤ, pos, pos_part, neg_part, sums_parts, ◌+ℤ◌, ◌-ℤ◌, ◌≤ℤ◌, int_laws}
use xource_x.Prelude.Outcome.{ok}
use xource_x.Prelude.Dict.{Dict, lookup, insert, or_default, lookup-insert}
use xource_x.AccessControl.{Address}
use xource_x.MockToken.{Token, balance_of, max_supply, mint, burn}

unfoldable pub sum : Dict ℤ → ℤ
sum [] = pos 0
sum (e ∷ d) = e.1 +ℤ sum d

-- A write replaces what the key held in the sum.
sum-insert :
    (k : ℕ) (v : ℤ) (d : Dict ℤ)
    → sum (insert k v d) +ℤ or_default (pos 0) (lookup k d) ≡ sum d +ℤ v
unfolding sum insert lookup
sum-insert k v [] = omega int_laws
sum-insert k v (e ∷ d) = grind (int_laws, sum-insert k v d)

pub sum-insert_parts :
    (k : ℕ) (v : ℤ) (d : Dict ℤ)
    → let after = sum (insert k v d) in
      let old = or_default (pos 0) (lookup k d) in
      pos_part after + pos_part old + neg_part (sum d) + neg_part v
      ≡ neg_part after + neg_part old + pos_part (sum d) + pos_part v
sum-insert_parts k v d =
    sums_parts (sum (insert k v d)) (or_default (pos 0) (lookup k d)) (sum d) v (sum-insert k v d)

pub record IsSound (s : Token) : Type 0 where
  pub held : (id : Address) → pos 0 ≤ℤ balance_of s id
  pub supplied : s.total_supply ≡ sum s.balances
  pub capped : s.total_supply ≤ℤ max_supply

-- A write of a number that is not negative keeps the balances so.
pub held-insert :
    (k : Address) (v : ℤ) (s : Token)
    → pos 0 ≤ℤ v
    → ((id : Address) → pos 0 ≤ℤ balance_of s id)
    → (id : Address) → pos 0 ≤ℤ or_default (pos 0) (lookup id (insert k v s.balances))
held-insert k v s h held id = ground (arith, lookup-insert k id v s.balances, held id)

module _ (s s' : Token) where
  mint-effect :
      (to : Address) (amount : ℤ)
      → mint to amount s ≡ ok (tt, s')
      → (pos 0 ≤ℤ amount)
        × (s'.balances ≡ insert to (balance_of s to +ℤ amount) s.balances)
        × (s'.total_supply ≡ s.total_supply +ℤ amount)
        × (s'.total_supply ≤ℤ max_supply)
  unfolding mint
  mint-effect to amount e = ground arith

  -- Minting keeps the token sound: the supply grows with the balances and stays within the cap.
  pub mint-IsSound :
      (to : Address) (amount : ℤ) → IsSound s → mint to amount s ≡ ok (tt, s') → IsSound s'
  mint-IsSound to amount h e =
      let (nonneg, balances, supply, cap) = mint-effect to amount e in
      record {
        held = λ id.
            rw balances (
              held-insert to (balance_of s to +ℤ amount) s (omega (int_laws, h.held to)) h.held id);
        supplied =
            rw (supply, balances, h.supplied)
              (omega (int_laws, sum-insert_parts to (balance_of s to +ℤ amount) s.balances));
        capped = cap;
      }

  module _ (authorized : Address → Bool) where
    burn-effect :
        (from : Address) (amount : ℤ)
        → burn authorized from amount s ≡ ok (tt, s')
        → (pos 0 ≤ℤ amount)
          × (amount ≤ℤ balance_of s from)
          × (s'.balances ≡ insert from (balance_of s from -ℤ amount) s.balances)
          × (s'.total_supply ≡ s.total_supply -ℤ amount)
    unfolding burn
    burn-effect from amount e = ground arith

    -- Burning keeps the token sound: the supply falls with the balances.
    pub burn-IsSound :
        (from : Address) (amount : ℤ)
        → IsSound s
        → burn authorized from amount s ≡ ok (tt, s')
        → IsSound s'
    burn-IsSound from amount h e =
        let (nonneg, covered, balances, supply) = burn-effect from amount e in
        record {
          held = λ id.
              rw balances
                (held-insert from (balance_of s from -ℤ amount) s (omega int_laws) h.held id);
          supplied =
              rw (supply, balances, h.supplied)
                (omega (int_laws, sum-insert_parts from (balance_of s from -ℤ amount) s.balances));
          capped = rw supply (omega (int_laws, h.capped));
        }
