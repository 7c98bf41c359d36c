-- ===== src/LoanNft/Transfers.antt =====
-- Who may move a loan NFT, and what a transfer does.
use xource_x.Prelude.{
  ◌⊎◌, inl, inr, ◌<◌, ◌||◌, Option-cases, Bool-cases, ℕ, ◌+◌, ◌-◌, ◌≡◌, true, none, some, arith,
  ◌==◌, if◌then◌else◌,
}
use xource_x.Prelude.Outcome.{ok}
use xource_x.Prelude.Dict.{lookup, insert, update, or_default}
use xource_x.AccessControl.{Address}
use xource_x.LoanNft.{ApprovalRecord, Nft, Env, transfer, transfer_from, may_spend}

module _ (s t : Nft) where
  -- What both transfers do: the NFT of `from` is now of `to`.
  pub record Moved (from to : Address) (loan_id : ℕ) : Type 0 where
    pub owned : lookup loan_id s.owners ≡ some from
    pub unlocked : or_default true (s.transferable loan_id) ≡ true
    pub owners : t.owners ≡ insert loan_id to s.owners
    pub balances :
        t.balances
        ≡ update to
            ((if from == to then s.balances from - 1 else s.balances to) + 1)
            (update from (s.balances from - 1) s.balances)
    pub supply : t.total_supply ≡ s.total_supply
    pub metadata : t.metadata ≡ s.metadata
    pub admin : t.admin ≡ s.admin
    pub unapproved : t.approved loan_id ≡ none

module _ (env : Env) (s t : Nft) where
  -- A transfer passes only for an NFT that its sender owns, that may move, and that the sender has
  -- authorised it for; the balances and the owner follow, and the approval is cleared.
  pub transfer-Moved :
      (from to : Address) (loan_id : ℕ)
      → transfer env from to loan_id s ≡ ok (tt, t)
      → (env.authorized from ≡ true) × Moved s t from to loan_id
  unfolding transfer
  transfer-Moved from to loan_id h = ground arith

  -- The spender is the owner, or an operator, or holds an approval that has not expired.
  abbrev pub MaySpend : (spender from : Address) (loan_id : ℕ) → Type 0
  MaySpend spender from loan_id =
      spender ≡ from
      ⊎ (s.operators from spender ≡ true
          ⊎ (r : ApprovalRecord) × (s.approved loan_id ≡ some r)
            × (r.operator ≡ spender)
            × (env.timestamp < r.expires_at))

  may_spend-MaySpend :
      (spender from : Address) (loan_id : ℕ)
      → may_spend env spender from loan_id s ≡ true
      → MaySpend spender from loan_id
  unfolding may_spend
  may_spend-MaySpend spender from loan_id h = elim (Option-cases (s.approved loan_id)) [
    | inl missing ↦ ground arith
    | inr (r, found) ↦ elim (Bool-cases (spender == from || s.operators from spender)) [
      | inl own ↦ ground arith
      | inr other ↦ inr (inr (r, found, ground arith, ground arith))
    ]
  ]

  -- A transfer by anyone else passes only for the owner's NFT, while it may move, where the spender
  -- has authorised the call and is the owner, an operator of all the owner's NFTs, or approved for
  -- this one and the approval has not expired. It clears the approval.
  pub transfer_from-Moved :
      (spender from to : Address) (loan_id : ℕ)
      → transfer_from env spender from to loan_id s ≡ ok (tt, t)
      → (env.authorized spender ≡ true) × MaySpend spender from loan_id × Moved s t from to loan_id
  unfolding transfer_from may_spend
  transfer_from-Moved spender from to loan_id h =
      (ground arith, may_spend-MaySpend spender from loan_id (ground arith), ground arith)
