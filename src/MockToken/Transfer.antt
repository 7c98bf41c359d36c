-- ===== src/MockToken/Transfer.antt =====
-- Transfers: between two accounts the supply is conserved; a transfer to oneself creates tokens.
use xource_x.Prelude.{◌≡◌, ◌≢◌, ap, Bool, true, arith}
use xource_x.Prelude.Int.{ℤ, pos, pos_part, neg_part, ◌+ℤ◌, ◌-ℤ◌, ◌≤ℤ◌, int_laws}
use xource_x.Prelude.Outcome.{ok}
use xource_x.Prelude.Dict.{insert, lookup-insert}
use xource_x.AccessControl.{Address}
use xource_x.MockToken.{Token, balance_of, transfer}
use xource_x.MockToken.Supply.{sum-insert_parts, IsSound, held-insert}

module _ (authorized : Address → Bool) (s s' : Token) where
  -- What a transfer writes: the debit of the sender, then the credit of the receiver's balance as it
  -- was before the debit.
  transfer-effect :
      (from to : Address) (amount : ℤ)
      → transfer authorized from to amount s ≡ ok (tt, s')
      → (authorized from ≡ true)
        × (pos 0 ≤ℤ amount)
        × (amount ≤ℤ balance_of s from)
        × (s'.balances
            ≡ insert to
                (balance_of s to +ℤ amount)
                (insert from (balance_of s from -ℤ amount) s.balances))
        × (s'.total_supply ≡ s.total_supply)
  unfolding transfer
  transfer-effect from to amount e = ground arith

  -- Between two accounts a transfer moves exactly the amount, and touches no third account.
  pub transfer-balance_of :
      (from to : Address) (amount : ℤ)
      → from ≢ to
      → transfer authorized from to amount s ≡ ok (tt, s')
      → (balance_of s' from ≡ balance_of s from -ℤ amount)
        × (balance_of s' to ≡ balance_of s to +ℤ amount)
        × ((id : Address) → id ≢ from → id ≢ to → balance_of s' id ≡ balance_of s id)
  transfer-balance_of from to amount apart e =
      let (_, _, _, balances, _) = transfer-effect from to amount e in
      (
        rw (balances, lookup-insert, lookup-insert) (ground arith),
        rw (balances, lookup-insert) (ground arith),
        λ id a b. rw balances (simp lookup-insert (ground arith)),
      )

  -- Between two accounts a transfer keeps the token sound: the total is conserved.
  transfer-IsSound :
      (from to : Address) (amount : ℤ)
      → from ≢ to
      → IsSound s
      → transfer authorized from to amount s ≡ ok (tt, s')
      → IsSound s'
  transfer-IsSound from to amount apart h e =
      let (_, nonneg, covered, balances, supply) = transfer-effect from to amount e in
      let debited : Token = record s {
        balances = insert from (balance_of s from -ℤ amount) s.balances;
      } in
      let credit : balance_of debited to ≡ balance_of s to = simp lookup-insert (ground arith) in
      record {
        held = λ id. rw balances (
            held-insert to (balance_of s to +ℤ amount) debited (omega (int_laws, h.held to))
              (held-insert from (balance_of s from -ℤ amount) s (omega int_laws) h.held) id);
        supplied =
            rw (supply, balances, h.supplied)
              (omega (
                int_laws,
                sum-insert_parts from (balance_of s from -ℤ amount) s.balances,
                sum-insert_parts to (balance_of s to +ℤ amount) debited.balances,
                ap pos_part credit,
                ap neg_part credit,
              ));
        capped = rw supply h.capped;
      }

  -- A transfer to oneself adds the amount to the balance, and the total supply stays: the credit
  -- overwrites the debit.
  transfer-self_inflates :
      (id : Address) (amount : ℤ)
      → transfer authorized id id amount s ≡ ok (tt, s')
      → (balance_of s' id ≡ balance_of s id +ℤ amount) × (s'.total_supply ≡ s.total_supply)
  transfer-self_inflates id amount e =
      let (_, _, _, balances, supply) = transfer-effect id id amount e in
      (rw (balances, lookup-insert) (ground arith), supply)
