-- ===== src/Lending/Tests/Setup.antt =====
-- A store with one pool, for asset 9, and collateral token 8, over the mock token.
use xource_x.Prelude.{ℕ, true, false, Option, none, some, [], ◌∷◌, ◌==◌}
use xource_x.Prelude.Int.{pos, pos_part, ◌+ℤ◌, ◌-ℤ◌}
use xource_x.Prelude.Outcome.{Outcome, ok, err, trap}
use xource_x.Prelude.Dict.{update, lookup, insert}
use xource_x.AccessControl.{Address, empty_access, admin}
use xource_x.MockToken
use xource_x.MockToken.{Token}
use xource_x.Lending.Types.{PoolState}
use xource_x.Lending.Store.{External, Ledger, Store}

unfoldable pub transfer_on :
    Address → Address → Address → ℕ → (Address → Token) → Option (Address → Token)
unfolding MockToken.transfer lookup insert ◌+ℤ◌ ◌-ℤ◌
transfer_on token from to amount w =
    elim (MockToken.transfer (λ a. true) from to (pos amount) (w token)) [
      | ok r ↦ some (update token r.1 w)
      | err e ↦ none
      | trap ↦ none
    ]

-- Every token address holds a mock token, under `mock_all_auths`; the NFT contract accepts all.
abbrev pub mock : External
mock = record {
  World = Address → Token;
  transfer = transfer_on;
  balance = λ token id w. pos_part (MockToken.balance_of (w token) id);
  mint = λ nft to m w. some w;
  burn = λ nft i w. some w;
}

abbrev pub ledger : Ledger
ledger = record { timestamp = 1000; sequence = 50; authorized = λ a. true; contract_id = 100 }

-- Four days after `ledger`, and so past the due date and the grace period of `loan`.
abbrev pub later : Ledger
later = record ledger { timestamp = 347_600; sequence = 60 }

abbrev pub pool : PoolState
pool = record {
  total_deposits = 12_000;
  total_shares = 10_000;
  total_borrowed = 0;
  base_rate_bps = 500;
  multiplier_bps = 2000;
  utilization_cap_bps = 8000;
  retained_yield = 300;
  bad_debt_reserve = 0;
  grace_period_seconds = 259_200;
  late_fee_rate_bps = 500;
  reserve_factor_bps = 1000;
  total_protocol_revenue = 0;
  is_paused = false;
}

-- User 1 holds the shares of the pool, user 2 collateral, user 3 tokens.
abbrev pub store : Store mock.World
store = record {
  admin = some 7;
  token = some 9;
  supported_assets = 9 ∷ [];
  collateral_ratio = some 12_000;
  pools = λ a. elim (a == 9) [ true ↦ some pool | false ↦ none ];
  shares = λ a. elim (a == 9) [ true ↦ (1, 9_000) ∷ [] | false ↦ [] ];
  deposit_ledgers = λ a u. none;
  next_loan_id = none;
  loans = λ a. none;
  loans_by_id = λ i. none;
  user_loans = λ a. [];
  whitelisted_collateral = λ a. a == 8;
  reserves = λ a. none;
  nft_token = none;
  late_fees_accrued = λ i. 0;
  flash_loan_fee_bps = none;
  flash_receivers = λ a. a == 66;
  rate_model = none;
  reward_pools = λ a. none;
  insurance_fund = none;
  insurance_premium_rate = none;
  user_stakes = λ u a. none;
  insurance = λ i. none;
  inheritance_contract = none;
  governance_contract = none;
  plan_yields = λ i. none;
  plan_yield_index = [];
  access = record empty_access { roles = λ a. elim (a == 7) [ true ↦ admin ∷ [] | false ↦ [] ] };
  events = [];
  world = λ token. elim (token == 9) [
    | true ↦ record {
      balances = (100, pos 12_300) ∷ (3, pos 50_000) ∷ (2, pos 100) ∷ [];
      total_supply = pos 62_400;
    }
    | false ↦ record { balances = (2, pos 9_000) ∷ []; total_supply = pos 9_000 }
  ];
}

-- The result and the store of a run, where it succeeds.
abbrev pub result : {E S : Type 0} → Outcome E (ℕ × S) → ℕ
result (ok r) = r.0
result (err e) = 0
result trap = 0

abbrev pub after : {E A S : Type 0} → S → Outcome E (A × S) → S
after s (ok r) = r.1
after s (err e) = s
after s trap = s
