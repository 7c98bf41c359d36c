-- ===== src/LoanNft/Tests.antt =====
-- Runs of the loan NFT contract, and the witnesses of its theorems.
use xource_x.Prelude.{◌≡◌, refl, true, false, none, some, []}
use xource_x.Prelude.Outcome.{Outcome, ok, err, trap}
use xource_x.Prelude.Dict.{lookup, insert}
use xource_x.LoanNft.{
  LoanMetadata, Nft, Env, mint, set_transferable, transfer, transfer_from, approve,
}
use xource_x.LoanNft.Owners.{count, size, IsDistinct}
use xource_x.LoanNft.Ownership.{IsConsistent, NftEntry, call, call-IsConsistent}

abbrev env : Env
env = record { timestamp = 1_000; authorized = λ a. true }

abbrev next_week : Env
next_week = record env { timestamp = 605_800 }

abbrev metadata : LoanMetadata
metadata = record {
  loan_id = 4;
  borrower = 2;
  principal = 1_000;
  collateral_amount = 1_200;
  collateral_token = 8;
  due_date = 4_600;
  ltv_ratio_bps = 8_333;
  plan_id = 0;
  uri = [];
}

-- Initialized by 7, and without an NFT.
abbrev empty_nft : Nft
empty_nft = record {
  admin = some 7;
  metadata = λ i. none;
  owners = [];
  approved = λ i. none;
  operators = λ o a. false;
  balances = λ a. 0;
  total_supply = 0;
  token_uris = λ i. none;
  reentrancy_guard = false;
  transferable = λ i. none;
  metadata_locked = λ i. false;
  events = [];
}

abbrev after : Nft → Outcome ⊥ ((Unit {0}) × Nft) → Nft
after s (ok r) = r.1
after s (err e) = s
after s trap = s

abbrev minted : Nft
unfolding mint insert
minted = after empty_nft (mint env 2 metadata empty_nft)

-- The loan is settled and its NFT may move.
abbrev settled : Nft
unfolding set_transferable
settled = after minted (set_transferable env 4 true minted)

abbrev approved : Nft
unfolding approve lookup
approved = after settled (approve env 2 5 4 settled)

transfer_while_active : transfer env 2 6 4 minted ≡ trap
unfolding mint insert transfer
transfer_while_active = refl

mint_twice : mint env 3 metadata minted ≡ trap
unfolding mint insert
mint_twice = refl

transfer_approval_expired : transfer_from next_week 5 2 6 4 approved ≡ trap
unfolding mint insert set_transferable approve lookup transfer_from
transfer_approval_expired = refl

empty_nft-IsConsistent : IsConsistent empty_nft
unfolding count size IsDistinct lookup
empty_nft-IsConsistent = record {
  distinct = tt;
  balances = λ a. refl;
  supply = refl;
  minted = λ i. refl;
  fresh = λ h. refl;
}

call-IsConsistent_example : IsConsistent minted
unfolding mint insert call
call-IsConsistent_example =
    call-IsConsistent env empty_nft minted (NftEntry.mint 2 metadata) refl empty_nft-IsConsistent
