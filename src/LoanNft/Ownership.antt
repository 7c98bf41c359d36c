-- ===== src/LoanNft/Ownership.antt =====
-- The owners, balances and supply of the loan NFT agree with each other, whatever is called.
use xource_x.Prelude.{ℕ, ◌≡◌, sym, subst, Bool, false, List, arith}
use xource_x.Prelude.Outcome.{ok}
use xource_x.Prelude.Dict.{lookup, lookup-insert, lookup-erase}
use xource_x.AccessControl.{Address}
use xource_x.LoanNft
use xource_x.LoanNft.{LoanMetadata, Nft, NftCall, Env, is_present}
use xource_x.LoanNft.Transfers.{Moved, transfer-Moved, transfer_from-Moved}
use xource_x.LoanNft.Owners.{
  count, size, IsDistinct, count-insert, size-insert, insert-IsDistinct, count-erase, size-erase,
  erase-IsDistinct,
}

-- Every balance counts the NFTs of its owner, the supply counts them all, an NFT has metadata
-- exactly where it has an owner, and a contract without an admin has none.
pub record IsConsistent (s : Nft) : Type 0 where
  pub distinct : IsDistinct s.owners
  pub balances : (a : Address) → s.balances a ≡ count a s.owners
  pub supply : s.total_supply ≡ size s.owners
  pub minted : (i : ℕ) → is_present (s.metadata i) ≡ is_present (lookup i s.owners)
  pub fresh : is_present s.admin ≡ false → size s.owners ≡ 0

-- The entry points that change the storage.
pub data NftEntry : Type 0 where
  initialize : (admin : Address) → NftEntry
  mint : (to : Address) → LoanMetadata → NftEntry
  burn : (loan_id : ℕ) → NftEntry
  transfer : (from to : Address) → (loan_id : ℕ) → NftEntry
  transfer_from : (spender from to : Address) → (loan_id : ℕ) → NftEntry
  approve : (caller operator : Address) → (loan_id : ℕ) → NftEntry
  set_approval_for_all : (caller operator : Address) → Bool → NftEntry
  set_token_uri : (loan_id : ℕ) → (uri : List ℕ) → NftEntry
  set_transferable : (loan_id : ℕ) → Bool → NftEntry

unfoldable pub call : Env → NftEntry → NftCall (Unit {0})
call env (NftEntry.initialize admin) = LoanNft.initialize admin
call env (NftEntry.mint to metadata) = LoanNft.mint env to metadata
call env (NftEntry.burn loan_id) = LoanNft.burn env loan_id
call env (NftEntry.transfer from to loan_id) = LoanNft.transfer env from to loan_id
call env (NftEntry.transfer_from spender from to loan_id) =
    LoanNft.transfer_from env spender from to loan_id
call env (NftEntry.approve caller operator loan_id) = LoanNft.approve env caller operator loan_id
call env (NftEntry.set_approval_for_all caller operator approved) =
    LoanNft.set_approval_for_all env caller operator approved
call env (NftEntry.set_token_uri loan_id uri) = LoanNft.set_token_uri env loan_id uri
call env (NftEntry.set_transferable loan_id is_transferable) =
    LoanNft.set_transferable env loan_id is_transferable

-- What a call leaves alone that only settings change.
record KeepsOwners (s t : Nft) : Type 0 where
  owners : t.owners ≡ s.owners
  balances : t.balances ≡ s.balances
  supply : t.total_supply ≡ s.total_supply
  metadata : t.metadata ≡ s.metadata
  admin : t.admin ≡ s.admin

KeepsOwners-IsConsistent : {s t : Nft} → KeepsOwners s t → IsConsistent s → IsConsistent t
KeepsOwners-IsConsistent {s} {t} k c = record {
  distinct = subst IsDistinct (sym k.owners) c.distinct;
  balances = λ a. rw (k.owners, k.balances) (c.balances a);
  supply = rw (k.owners, k.supply) c.supply;
  minted = λ i. rw (k.owners, k.metadata) (c.minted i);
  fresh = rw (k.owners, k.admin) c.fresh;
}

module _ (env : Env) (s t : Nft) where
  mint-IsConsistent :
      (to : Address) (m : LoanMetadata)
      → LoanNft.mint env to m s ≡ ok (tt, t)
      → IsConsistent s
      → IsConsistent t
  unfolding LoanNft.mint
  mint-IsConsistent to m h c = record {
    distinct = ground (arith, insert-IsDistinct m.loan_id to s.owners c.distinct);
    balances =
        λ a. ground (arith, c.balances a, c.minted m.loan_id, count-insert a m.loan_id to s.owners);
    supply = ground (arith, c.supply, c.minted m.loan_id, size-insert m.loan_id to s.owners);
    minted = λ i. ground (arith, c.minted i, lookup-insert m.loan_id i to s.owners);
    fresh = ground arith;
  }

  initialize-IsConsistent :
      (admin : Address) → LoanNft.initialize admin s ≡ ok (tt, t) → IsConsistent s → IsConsistent t
  unfolding LoanNft.initialize
  initialize-IsConsistent admin h c = record {
    distinct = ground (arith, c.distinct);
    balances = λ a. ground (arith, c.balances a);
    supply = ground (arith, c.fresh);
    minted = λ i. ground (arith, c.minted i);
    fresh = ground arith;
  }

  burn-IsConsistent :
      (loan_id : ℕ) → LoanNft.burn env loan_id s ≡ ok (tt, t) → IsConsistent s → IsConsistent t
  unfolding LoanNft.burn
  burn-IsConsistent loan_id h c = record {
    distinct = ground (arith, erase-IsDistinct loan_id s.owners c.distinct);
    balances = λ a. ground (arith, c.balances a, count-erase a loan_id s.owners c.distinct);
    supply = ground (arith, c.supply, size-erase loan_id s.owners c.distinct);
    minted = λ i. ground (arith, c.minted i, lookup-erase loan_id i s.owners);
    fresh = ground arith;
  }

  Moved-IsConsistent :
      (from to : Address) (loan_id : ℕ)
      → Moved s t from to loan_id
      → IsConsistent s
      → IsConsistent t
  Moved-IsConsistent from to loan_id m c = record {
    distinct = ground (arith, m.owners, insert-IsDistinct loan_id to s.owners c.distinct);
    balances = λ a. ground (
      arith,
      c.balances a,
      c.balances to,
      c.balances from,
      count-insert a loan_id to s.owners,
      count-erase from loan_id s.owners c.distinct,
    );
    supply = ground (arith, c.supply, size-insert loan_id to s.owners);
    minted = λ i. ground (arith, c.minted i, lookup-insert loan_id i to s.owners);
    fresh = ground (arith, c.fresh, size-insert loan_id to s.owners);
  }

  -- A successful call of any entry point, with any arguments and by anyone, keeps the owners, the
  -- balances, the supply and the metadata in agreement.
  pub call-IsConsistent :
      (e : NftEntry) → call env e s ≡ ok (tt, t) → IsConsistent s → IsConsistent t
  unfolding call LoanNft.approve LoanNft.set_approval_for_all LoanNft.set_token_uri
      LoanNft.set_transferable
  call-IsConsistent (NftEntry.initialize admin) h c = initialize-IsConsistent admin h c
  call-IsConsistent (NftEntry.mint to m) h c = mint-IsConsistent to m h c
  call-IsConsistent (NftEntry.burn loan_id) h c = burn-IsConsistent loan_id h c
  call-IsConsistent (NftEntry.transfer from to loan_id) h c =
      let (authorized, m) = transfer-Moved env s t from to loan_id h in
      Moved-IsConsistent from to loan_id m c
  call-IsConsistent (NftEntry.transfer_from spender from to loan_id) h c =
      let (authorized, allowed, m) = transfer_from-Moved env s t spender from to loan_id h in
      Moved-IsConsistent from to loan_id m c
  call-IsConsistent (NftEntry.approve caller operator loan_id) h c =
      KeepsOwners-IsConsistent (ground arith) c
  call-IsConsistent (NftEntry.set_approval_for_all caller operator approved) h c =
      KeepsOwners-IsConsistent (ground arith) c
  call-IsConsistent (NftEntry.set_token_uri loan_id uri) h c =
      KeepsOwners-IsConsistent (ground arith) c
  call-IsConsistent (NftEntry.set_transferable loan_id free) h c =
      KeepsOwners-IsConsistent (ground arith) c
