-- ===== src/Lending/Loans/Borrow.antt =====
-- The effect of a successful `borrow`: each stage's, and the whole call's.
use xource_x.Prelude.{
  ℕ, ◌+◌, ◌≤◌, ◌<◌, ◌≡◌, Bool, true, false, Option, none, some, List, [], ◌∷◌, ◌++◌, arith, leb,
  Option-cases, inl, inr, subst, sym,
}
use xource_x.Prelude.Words.{as_u64, mul_div_u128}
use xource_x.Prelude.Outcome.{ok, >>=-eq-ok}
use xource_x.Prelude.Dict.{update, or_default}
use xource_x.AccessControl.{Address}
use xource_x.Lending.Types.{PoolState, LoanRecord, RateModel}
use xource_x.Lending.Math.{
  get_utilization_bps, calculate_dynamic_rate, two_slope_rate, calc_ltv_ratio_bps,
}
use xource_x.Lending.Store.{External, NftLoanMetadata, Ledger, Store}
use xource_x.Lending.Terms.{build_loan_nft_uri, mint_loan_nft}
use xource_x.Lending.Pool.{available}
use xource_x.Lending.Pool.Effects.{Admitted, KeepsListing}
use xource_x.Lending.Loans.{admit_borrow, fund_borrow, store_loan, pay_out_loan, borrow}

-- `s` with the reentrancy lock set.
abbrev pub lock_set : {W : Type 0} → Store W → Store W
lock_set s = record s { access = record s.access { reentrancy_lock = true } }

-- The rate of a pool at a utilization: the configured model's, or the pool's own.
abbrev pub rate_of : Option RateModel → PoolState → ℕ → ℕ
rate_of (some model) pool utilization = two_slope_rate model utilization
rate_of none pool utilization =
    calculate_dynamic_rate pool.base_rate_bps pool.multiplier_bps utilization

-- The last deposit of a token was made in this ledger sequence, or in a later one.
abbrev pub deposited_now : Ledger → Option ℕ → Bool
deposited_now l (some deposit_ledger) = leb l.sequence deposit_ledger
deposited_now l none = false

-- What the NFT of a loan says.
abbrev pub metadata_of : LoanRecord → List ℕ → NftLoanMetadata
metadata_of loan uri = record {
  loan_id = loan.loan_id;
  borrower = loan.borrower;
  principal = loan.principal;
  collateral_amount = loan.collateral_amount;
  collateral_token = loan.collateral_token;
  due_date = loan.due_date;
  ltv_ratio_bps = calc_ltv_ratio_bps loan.principal loan.collateral_amount;
  plan_id = 0;
  uri = uri;
}

abbrev pub uri_of : LoanRecord → Option (List ℕ)
uri_of loan =
    build_loan_nft_uri loan.loan_id loan.principal loan.collateral_amount
      (calc_ltv_ratio_bps loan.principal loan.collateral_amount) loan.due_date

-- The NFT of a loan is minted to its borrower, where there is an NFT contract.
abbrev pub NftMinted : (x : External) → Option Address → LoanRecord → x.World → x.World → Type 0
NftMinted x none loan w w' = w' ≡ w
NftMinted x (some nft_token) loan w w' =
    (uri : List ℕ) × (uri_of loan ≡ some uri)
    × (x.mint nft_token loan.borrower (metadata_of loan uri) w ≡ some w')

module _ (x : External) (l : Ledger) (s t : Store x.World) where
  -- What the tests of `borrow` have found.
  record BorrowAdmitted (borrower asset : Address) (amount : ℕ) (collateral_token : Address)
      (collateral_amount : ℕ) (pool : PoolState) : Type 0 where
    admitted : Admitted s l borrower
    found : s.pools asset ≡ some pool
    active : pool.is_paused ≡ false
    some_amount : 0 < amount
    some_collateral : 0 < collateral_amount
    settled : deposited_now l (s.deposit_ledgers collateral_token borrower) ≡ false
    whitelisted : s.whitelisted_collateral collateral_token ≡ true
    first_loan : s.user_loans borrower ≡ []
    secured :
        as_u64 (mul_div_u128 amount (or_default 15000 s.collateral_ratio) 10000) ≤ collateral_amount
    liquid : amount ≤ available pool
    capped :
        get_utilization_bps (pool.total_borrowed + amount) pool.total_deposits
        ≤ pool.utilization_cap_bps
    locked : t ≡ lock_set s

  admit_borrow-BorrowAdmitted :
      (borrower asset : Address) (amount : ℕ) (token : Address) (collateral : ℕ) (pool : PoolState)
      → admit_borrow x l borrower asset amount token collateral s ≡ ok (pool, t)
      → BorrowAdmitted borrower asset amount token collateral pool
  unfolding admit_borrow
  admit_borrow-BorrowAdmitted borrower asset amount token collateral pool h =
      elim (Option-cases (s.deposit_ledgers token borrower)) [
        | inl none_yet ↦ ground arith
        | inr (deposit_ledger, last) ↦ ground arith
      ]

  fund_borrow-effect :
      (borrower asset : Address) (amount : ℕ) (token : Address) (collateral : ℕ) (pool : PoolState)
      (rate : ℕ)
      → fund_borrow x l borrower asset amount token collateral pool s ≡ ok (rate, t)
      → (t ≡ record s {
        pools =
            update asset
              (some (record pool { total_borrowed = pool.total_borrowed + amount }))
              s.pools;
        reserves = t.reserves;
        world = t.world;
      })
        × (rate
            ≡ rate_of s.rate_model pool
                (get_utilization_bps (pool.total_borrowed + amount) pool.total_deposits))
        × (x.transfer token borrower l.contract_id collateral s.world ≡ some t.world)
  unfolding fund_borrow
  fund_borrow-effect borrower asset amount token collateral pool rate h = ground arith

  store_loan-effect :
      (borrower asset : Address) (amount : ℕ) (token : Address) (collateral duration rate : ℕ)
      (loan : LoanRecord)
      → store_loan x l borrower asset amount token collateral duration rate s ≡ ok (loan, t)
      → (loan ≡ record {
        loan_id = or_default 1 s.next_loan_id;
        borrower = borrower;
        asset = asset;
        principal = amount;
        collateral_amount = collateral;
        collateral_token = token;
        borrow_time = l.timestamp;
        due_date = l.timestamp + duration;
        interest_rate_bps = rate;
      })
        × (t ≡ record s {
          next_loan_id = some (loan.loan_id + 1);
          loans = update borrower (some loan) s.loans;
          loans_by_id = update loan.loan_id (some loan) s.loans_by_id;
          user_loans = update borrower (s.user_loans borrower ++ loan.loan_id ∷ []) s.user_loans;
        })
  unfolding store_loan
  store_loan-effect borrower asset amount token collateral duration rate loan h = ground arith

  mint_loan_nft-NftMinted :
      (loan : LoanRecord)
      → mint_loan_nft x loan s ≡ ok (tt, t)
      → (t ≡ record s { world = t.world }) × NftMinted x s.nft_token loan s.world t.world
  unfolding mint_loan_nft
  mint_loan_nft-NftMinted loan h = elim (Option-cases s.nft_token) [
    | inl unset ↦
        (ground arith, subst (λ n. NftMinted x n loan s.world t.world) (sym unset) (ground arith))
    | inr (nft_token, set) ↦ elim (Option-cases (uri_of loan)) [
      | inl failed ↦ absurd (ground arith)
      | inr (uri, built) ↦ (
        ground arith,
        subst (λ n. NftMinted x n loan s.world t.world) (sym set) (uri, built, ground arith),
      )
    ]
  ]

module _ (x : External) (l : Ledger) (s t : Store x.World) where
  pay_out_loan-effect :
      (loan : LoanRecord) (loan_id : ℕ)
      → pay_out_loan x l loan s ≡ ok (loan_id, t)
      → (loan_id ≡ loan.loan_id)
        × (t ≡ record s {
          access = record s.access { reentrancy_lock = false };
          events = t.events;
          world = t.world;
        })
        × ((minted : x.World) × NftMinted x s.nft_token loan s.world minted
            × (x.transfer loan.asset l.contract_id loan.borrower loan.principal minted
                ≡ some t.world))
  unfolding pay_out_loan
  pay_out_loan-effect loan loan_id h =
      let (done, u, e, k) = >>=-eq-ok (mint_loan_nft x loan) _ s h in
      let (only, nft) = mint_loan_nft-NftMinted x l s u loan e in
      (ground arith, ground arith, (u.world, nft, ground (arith, k)))

module _ (x : External) (l : Ledger) (s s' : Store x.World) where
  -- A loan of `amount` against `collateral_amount`, where `pool` was stored. The tokens were as in
  -- `received` once the collateral was in, and as in `minted` once the NFT was there too.
  pub record Borrowed (borrower asset : Address) (amount : ℕ) (collateral_token : Address)
      (collateral_amount duration_seconds loan_id : ℕ) (pool : PoolState) (loan : LoanRecord)
      (received minted : x.World) : Type 0 where
    pub admitted : Admitted s l borrower
    pub found : s.pools asset ≡ some pool
    pub active : pool.is_paused ≡ false
    pub some_amount : 0 < amount
    pub some_collateral : 0 < collateral_amount
    pub settled : deposited_now l (s.deposit_ledgers collateral_token borrower) ≡ false
    pub whitelisted : s.whitelisted_collateral collateral_token ≡ true
    pub first_loan : s.user_loans borrower ≡ []
    pub secured :
        as_u64 (mul_div_u128 amount (or_default 15000 s.collateral_ratio) 10000) ≤ collateral_amount
    pub liquid : amount ≤ available pool
    pub capped :
        get_utilization_bps (pool.total_borrowed + amount) pool.total_deposits
        ≤ pool.utilization_cap_bps
    pub pools :
        s'.pools
        ≡ update asset
            (some (record pool { total_borrowed = pool.total_borrowed + amount }))
            s.pools
    pub next_id : loan_id ≡ or_default 1 s.next_loan_id
    pub next_id_after : s'.next_loan_id ≡ some (loan_id + 1)
    pub loan_id_stored : loan.loan_id ≡ loan_id
    pub borrower_stored : loan.borrower ≡ borrower
    pub principal : loan.principal ≡ amount
    pub rated :
        loan.interest_rate_bps
        ≡ rate_of s.rate_model pool
            (get_utilization_bps (pool.total_borrowed + amount) pool.total_deposits)
    pub borrow_time : loan.borrow_time ≡ l.timestamp
    pub asset_stored : loan.asset ≡ asset
    pub collateral : loan.collateral_amount ≡ collateral_amount
    pub collateral_token_stored : loan.collateral_token ≡ collateral_token
    pub due : loan.due_date ≡ l.timestamp + duration_seconds
    pub loans : s'.loans ≡ update borrower (some loan) s.loans
    pub loans_by_id : s'.loans_by_id ≡ update loan_id (some loan) s.loans_by_id
    pub user_loans : s'.user_loans ≡ update borrower (loan_id ∷ []) s.user_loans
    pub shares : s'.shares ≡ s.shares
    pub paid_in :
        x.transfer collateral_token borrower l.contract_id collateral_amount s.world ≡ some received
    pub nft : NftMinted x s.nft_token loan received minted
    pub paid_out : x.transfer asset l.contract_id borrower amount minted ≡ some s'.world
    pub unlocked : s'.access.reentrancy_lock ≡ false
    pub listing : KeepsListing s s'

module _ (x : External) (l : Ledger) (s s' t u v : Store x.World) where
  -- The four stages, one after the other.
  Borrowed-stages :
      (borrower asset : Address) (amount : ℕ) (token : Address)
      (collateral duration loan_id rate : ℕ) (pool : PoolState) (loan : LoanRecord)
      → admit_borrow x l borrower asset amount token collateral s ≡ ok (pool, t)
      → fund_borrow x l borrower asset amount token collateral pool t ≡ ok (rate, u)
      → store_loan x l borrower asset amount token collateral duration rate u ≡ ok (loan, v)
      → pay_out_loan x l loan v ≡ ok (loan_id, s')
      → (minted : x.World) × Borrowed x l s s' borrower asset amount token collateral duration
          loan_id pool loan u.world minted
  Borrowed-stages borrower asset amount token collateral duration loan_id rate pool loan a f g p =
      let admitted =
        admit_borrow-BorrowAdmitted x l s t borrower asset amount token collateral pool a in
      let (funded, rated, paid_in) =
        fund_borrow-effect x l t u borrower asset amount token collateral pool rate f in
      let (terms, stored) =
        store_loan-effect x l u v borrower asset amount token collateral duration rate loan g in
      let (same, only, (minted, nft, paid_out)) = pay_out_loan-effect x l v s' loan loan_id p in
      let token_set : v.nft_token ≡ s.nft_token = ground (arith, admitted.locked) in
      let world : v.world ≡ u.world = ground arith in
      let nft' : NftMinted x s.nft_token loan u.world minted =
        subst (λ w. NftMinted x s.nft_token loan w minted) world
          (subst (λ n. NftMinted x n loan v.world minted) token_set nft) in
      (minted, ground (arith, admitted))

module _ (x : External) (l : Ledger) {s s' : Store x.World} where
  -- A successful loan passed every test of `borrow`: the call was admitted, the pool active, the
  -- collateral above 0, whitelisted, worth the collateral ratio, and not of a token that the borrower
  -- has deposited in the same ledger sequence or later, the borrower without a loan, the amount above
  -- 0 and liquid, and the new utilization within the cap. The collateral came in, the loan's NFT was
  -- minted to the borrower where an NFT contract is set, and the amount went out to the borrower, with
  -- no other call of a token. The loan raised that pool's borrowings by the amount, was stored with
  -- these terms under the next id, at the rate of the new utilization, and left all shares alone.
  pub borrow-Borrowed :
      (borrower asset : Address) (amount : ℕ) (collateral_token : Address)
      (collateral_amount duration_seconds loan_id : ℕ)
      → borrow x l borrower asset amount collateral_token collateral_amount duration_seconds s
        ≡ ok (loan_id, s')
      → (pool : PoolState) × (loan : LoanRecord) × (received : x.World) × (minted : x.World)
        × Borrowed x l s s' borrower asset amount collateral_token collateral_amount
            duration_seconds loan_id pool loan received minted
  unfolding borrow
  borrow-Borrowed borrower asset amount token collateral duration loan_id h =
      let (pool, t, admit, h₁) =
        >>=-eq-ok (admit_borrow x l borrower asset amount token collateral) _ s h in
      let (rate, u, fund, h₂) =
        >>=-eq-ok (fund_borrow x l borrower asset amount token collateral pool) _ t h₁ in
      let (loan, v, store, pay) =
        >>=-eq-ok (store_loan x l borrower asset amount token collateral duration rate) _ u h₂ in
      let (minted, done) =
        Borrowed-stages x l s s' t u v borrower asset amount token collateral duration loan_id rate
          pool loan admit fund store pay in
      (pool, loan, u.world, minted, done)
