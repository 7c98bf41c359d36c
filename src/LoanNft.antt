-- ===== src/LoanNft.antt =====
-- contracts/loan-nft/src/lib.rs: the NFT that stands for a loan. Every failure of this contract is a
-- panic.
pub mod Owners
pub mod Transfers
pub mod Ownership
pub mod Approvals
mod Tests
use xource_x.Prelude.{
  ℕ, ◌+◌, ◌-◌, ◌*◌, ◌<◌, Bool, true, false, not, ◌&&◌, ◌||◌, Option, none, some, List, [], ◌∷◌, ltb,
  leb, ◌==◌, if◌then◌else◌,
}
use xource_x.Prelude.Words.{u64_mod, saturating_add_u64}
use xource_x.Prelude.Outcome.{◌>>=◌, ◌>>◌, Contract, pure, gets, modify, panic_if, unwrap}
use xource_x.Prelude.Dict.{Dict, lookup, insert, erase, update, or_default}
use xource_x.AccessControl.{Address}

abbrev default_approval_expiration_seconds : ℕ
default_approval_expiration_seconds = 60 * 60 * 24 * 7

pub record LoanMetadata : Type 0 where
  pub loan_id : ℕ
  pub borrower : Address
  pub principal : ℕ
  pub collateral_amount : ℕ
  pub collateral_token : Address
  pub due_date : ℕ
  pub ltv_ratio_bps : ℕ
  pub plan_id : ℕ
  pub uri : List ℕ

pub record ApprovalRecord : Type 0 where
  pub operator : Address
  pub expires_at : ℕ

-- A `Transfer` event names no sender where it mints and no receiver where it burns.
pub data NftEvent : Type 0 where
  transferred : (from to : Option Address) (loan_id : ℕ) → NftEvent
  approval : (owner operator : Address) (loan_id : ℕ) → NftEvent
  approval_for_all : (owner operator : Address) → Bool → NftEvent

-- A field for each key of `DataKey`; a flag that is removed reads as the code's default.
pub record Nft : Type 0 where
  pub admin : Option Address
  pub metadata : ℕ → Option LoanMetadata
  pub owners : Dict Address
  pub approved : ℕ → Option ApprovalRecord
  pub operators : Address → Address → Bool
  pub balances : Address → ℕ
  pub total_supply : ℕ
  pub token_uris : ℕ → Option (List ℕ)
  pub reentrancy_guard : Bool
  pub transferable : ℕ → Option Bool
  pub metadata_locked : ℕ → Bool
  pub events : List NftEvent

-- What `env` gives to a call.
pub record Env : Type 0 where
  pub timestamp : ℕ
  pub authorized : Address → Bool

-- A call of the contract, which has no error but the panic.
abbrev pub NftCall : Type 0 → Type 0
NftCall = Contract Nft ⊥

abbrev emit : NftEvent → NftCall (Unit {0})
emit e = modify (λ s. record s { events = e ∷ s.events })

abbrev require_auth : Env → Address → NftCall (Unit {0})
require_auth env a = panic_if (not (env.authorized a))

abbrev pub is_present : {A : Type 0} → Option A → Bool
is_present none = false
is_present (some a) = true

abbrev enter_guard : NftCall (Unit {0})
enter_guard = do
  held ← gets (λ s. s.reentrancy_guard)
  panic_if held
  modify (λ s. record s { reentrancy_guard = true })

abbrev exit_guard : NftCall (Unit {0})
exit_guard = modify (λ s. record s { reentrancy_guard = false })

unfoldable pub check_admin : Env → NftCall (Unit {0})
check_admin env = do found ← gets (λ s. s.admin); admin ← unwrap found; require_auth env admin

unfoldable pub initialize : Address → NftCall (Unit {0})
initialize admin = do
  existing ← gets (λ s. s.admin)
  panic_if (is_present existing)
  modify (λ s. record s { admin = some admin; total_supply = 0 })

unfoldable pub owner_of : ℕ → Nft → Option Address
owner_of loan_id s = lookup loan_id s.owners

unfoldable pub mint : Env → Address → LoanMetadata → NftCall (Unit {0})
unfolding check_admin
mint env to metadata = do
  check_admin env
  enter_guard
  let loan_id = metadata.loan_id
  existing ← gets (λ s. s.metadata loan_id)
  panic_if (is_present existing)
  modify (λ s. record s {
    metadata = update loan_id (some metadata) s.metadata;
    owners = insert loan_id to s.owners;
    transferable = update loan_id (some false) s.transferable;
    metadata_locked = update loan_id true s.metadata_locked;
  })
  total_supply ← gets (λ s. s.total_supply)
  panic_if (not (ltb (total_supply + 1) u64_mod))
  modify (λ s. record s { total_supply = total_supply + 1 })
  balance ← gets (λ s. s.balances to)
  panic_if (not (ltb (balance + 1) u64_mod))
  modify (λ s. record s { balances = update to (balance + 1) s.balances })
  emit (transferred none (some to) loan_id)
  exit_guard

unfoldable pub burn : Env → ℕ → NftCall (Unit {0})
unfolding check_admin owner_of
burn env loan_id = do
  check_admin env
  enter_guard
  found ← gets (owner_of loan_id)
  owner ← unwrap found
  modify (λ s. record s {
    metadata = update loan_id none s.metadata;
    owners = erase loan_id s.owners;
    approved = update loan_id none s.approved;
    token_uris = update loan_id none s.token_uris;
    transferable = update loan_id none s.transferable;
    metadata_locked = update loan_id false s.metadata_locked;
  })
  modify (λ s. record s { total_supply = s.total_supply - 1 })
  balance ← gets (λ s. s.balances owner)
  modify (λ s. record s { balances = update owner (balance - 1) s.balances })
  emit (transferred (some owner) none loan_id)
  exit_guard

unfoldable pub check_transfer_restriction : ℕ → NftCall (Unit {0})
check_transfer_restriction loan_id = do
  is_transferable ← gets (λ s. or_default true (s.transferable loan_id))
  panic_if (not is_transferable)

-- The receiver's balance is read after the sender's is written.
unfoldable pub do_transfer : Address → Address → ℕ → NftCall (Unit {0})
do_transfer from to loan_id = do
  modify (λ s. record s {
    owners = insert loan_id to s.owners;
    approved = update loan_id none s.approved;
  })
  modify (λ s. record s { balances = update from (s.balances from - 1) s.balances })
  balance_to ← gets (λ s. s.balances to)
  panic_if (not (ltb (balance_to + 1) u64_mod))
  modify (λ s. record s { balances = update to (balance_to + 1) s.balances })
  emit (transferred (some from) (some to) loan_id)

unfoldable pub transfer : Env → Address → Address → ℕ → NftCall (Unit {0})
unfolding check_transfer_restriction owner_of do_transfer
transfer env from to loan_id = do
  require_auth env from
  enter_guard
  check_transfer_restriction loan_id
  found ← gets (owner_of loan_id)
  owner ← unwrap found
  panic_if (not (owner == from))
  do_transfer from to loan_id
  exit_guard

-- May `spender` move the NFT of `from` at this time?
unfoldable pub may_spend : Env → Address → Address → ℕ → Nft → Bool
may_spend env spender from loan_id s =
    (spender == from) || s.operators from spender || elim (s.approved loan_id) [
      | some r ↦ (r.operator == spender) && ltb env.timestamp r.expires_at
      | none ↦ false
    ]

unfoldable pub transfer_from : Env → Address → Address → Address → ℕ → NftCall (Unit {0})
unfolding check_transfer_restriction owner_of do_transfer may_spend
transfer_from env spender from to loan_id = do
  require_auth env spender
  enter_guard
  check_transfer_restriction loan_id
  found ← gets (owner_of loan_id)
  owner ← unwrap found
  panic_if (not (owner == from))
  allowed ← gets (may_spend env spender from loan_id)
  panic_if (not allowed)
  do_transfer from to loan_id
  exit_guard

unfoldable pub approve : Env → Address → Address → ℕ → NftCall (Unit {0})
unfolding owner_of
approve env caller operator loan_id = do
  require_auth env caller
  found ← gets (owner_of loan_id)
  owner ← unwrap found
  panic_if (operator == owner)
  is_operator_for_all ← gets (λ s. s.operators owner caller)
  panic_if (not (caller == owner) && not is_operator_for_all)
  let expires = saturating_add_u64 env.timestamp default_approval_expiration_seconds
  modify (λ s. record s {
    approved =
        update loan_id (some (record { operator = operator; expires_at = expires })) s.approved;
  })
  emit (approval owner operator loan_id)

unfoldable pub set_approval_for_all : Env → Address → Address → Bool → NftCall (Unit {0})
set_approval_for_all env caller operator approved = do
  require_auth env caller
  panic_if (caller == operator)
  modify (λ s. record s {
    operators = update caller (update operator approved (s.operators caller)) s.operators;
  })
  emit (approval_for_all caller operator approved)

unfoldable pub get_approved : Env → ℕ → Nft → Option Address
get_approved env loan_id s = elim (s.approved loan_id) [
  | some r ↦ if ltb env.timestamp r.expires_at then some r.operator else none
  | none ↦ none
]

unfoldable pub set_token_uri : Env → ℕ → List ℕ → NftCall (Unit {0})
unfolding check_admin
set_token_uri env loan_id uri = do
  check_admin env
  existing ← gets (λ s. s.metadata loan_id)
  panic_if (not (is_present existing))
  modify (λ s. record s { token_uris = update loan_id (some uri) s.token_uris })

-- The text that is bound to the NFT; none is the empty text.
unfoldable pub get_token_uri : ℕ → Nft → List ℕ
get_token_uri token_id s = elim (s.metadata token_id) [ some m ↦ m.uri | none ↦ [] ]

unfoldable pub set_transferable : Env → ℕ → Bool → NftCall (Unit {0})
unfolding check_admin
set_transferable env loan_id is_transferable = do
  check_admin env
  existing ← gets (λ s. s.metadata loan_id)
  panic_if (not (is_present existing))
  modify (λ s. record s { transferable = update loan_id (some is_transferable) s.transferable })
