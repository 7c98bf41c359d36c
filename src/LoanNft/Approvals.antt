-- ===== src/LoanNft/Approvals.antt =====
-- How long an approval lasts, and who gives it.
use xource_x.Prelude.{
  ℕ, ◌+◌, ◌<◌, ◌≡◌, ◌⊎◌, inl, inr, Option-cases, true, none, some, arith, ltb, if◌then◌else◌,
}
use xource_x.Prelude.Words.{u64_mod}
use xource_x.Prelude.Outcome.{ok}
use xource_x.AccessControl.{Address}
use xource_x.LoanNft.{Nft, Env, owner_of, approve, get_approved}

module _ (env : Env) (s t : Nft) where
  -- An approval was authorised by its caller, who is the owner or an operator of all the owner's
  -- NFTs, and is not for the owner. It can be read for seven days from now, at any time that the
  -- clock can show, and no longer.
  pub approve-get_approved :
      (caller operator : Address) (loan_id : ℕ) (env' : Env)
      → env'.timestamp + 1 < u64_mod
      → approve env caller operator loan_id s ≡ ok (tt, t)
      → (env.authorized caller ≡ true)
        × ((owner : Address) × (owner_of loan_id s ≡ some owner)
            × (operator ≡ owner → ⊥)
            × (caller ≡ owner ⊎ s.operators owner caller ≡ true))
        × (get_approved env' loan_id t
            ≡ (if ltb env'.timestamp (env.timestamp + 604_800) then some operator else none))
  unfolding approve get_approved
  approve-get_approved caller operator loan_id env' clock h = (
    ground arith,
    elim (Option-cases (owner_of loan_id s)) [
      | inl missing ↦ absurd (ground arith)
      | inr (owner, found) ↦ (owner, found, ground arith, ground arith)
    ],
    ground arith,
  )
