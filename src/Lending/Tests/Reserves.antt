-- ===== src/Lending/Tests/Reserves.antt =====
-- Stakes, insurance, accruals and write-offs.
use xource_x.Prelude.{◌+◌, ◌*◌, ◌<◌, ◌≡◌, refl, true, false, none, some, arith, [], ◌∷◌, ◌==◌}
use xource_x.Prelude.Words.{u64_mod, mul_div_u128}
use xource_x.Prelude.Dict.{lookup}
use xource_x.Prelude.Outcome.{ok, Returns}
use xource_x.Lending.Types.{PoolState, LoanRecord, RewardPool, UserStake, LoanInsurance}
use xource_x.Lending.Math.{calculate_interest}
use xource_x.Lending.Store.{Store}
use xource_x.Lending.Terms.{interest_due, calculate_late_fee}
use xource_x.Lending.Loans.{get_repayment_amount}
use xource_x.Lending.Rewards.{accrue_rewards, pending_rewards, stake_lp_tokens, claim_rewards}
use xource_x.Lending.Rewards.Claims.{earned_between, claim_rewards_twice}
use xource_x.Lending.ReserveFund.{accrue_interest_with_reserve, liquidate_bad_debt, write_off}
use xource_x.Lending.ReserveFund.Effects.{
  aside_of, WrittenOff, accrue_interest_with_reserve_twice, liquidate_bad_debt-WrittenOff,
}
use xource_x.Lending.Insurance.{claim_insurance}
use xource_x.Lending.Upkeep.{Upkeep, apply_upkeep}
use xource_x.Lending.Upkeep.Books.{KeepsTotals, apply_upkeep-KeepsTotals}
use xource_x.Lending.Tests.Setup.{mock, ledger, later, pool, store, after}

abbrev rewards : RewardPool
rewards = record {
  total_staked = 100;
  reward_rate = 50_000_000;
  last_update_time = 0;
  reward_per_token_stored = 0;
  total_rewards_distributed = 0;
}

abbrev stake : UserStake
stake = record { amount = 100; reward_per_token_paid = 0; rewards = 0; stake_time = 0 }

-- User 1 farms with 100 shares.
abbrev farm : Store mock.World
farm = record store {
  reward_pools = λ a. elim (a == 9) [ true ↦ some rewards | false ↦ none ];
  user_stakes = λ u a. elim (u == 1) [ true ↦ some stake | false ↦ none ];
}

abbrev claimed : Store mock.World
unfolding claim_rewards
claimed = after farm (claim_rewards ledger 1 9 farm)

rewards_paid : claim_rewards ledger 1 9 farm ≡ ok (5_000, claimed)
unfolding claim_rewards accrue_rewards pending_rewards
rewards_paid = refl

something_earned : 0 < earned_between rewards (accrue_rewards 1_000 rewards) stake
unfolding accrue_rewards
something_earned = omega arith

earnings_fit : (accrue_rewards 1_000 rewards).reward_per_token_stored * stake.amount < u64_mod
unfolding accrue_rewards
earnings_fit = omega arith

claim_rewards_twice_example :
    Returns
      (λ again u. again ≡ earned_between rewards (accrue_rewards 1_000 rewards) stake)
      (claim_rewards ledger 1 9 claimed)
claim_rewards_twice_example =
    claim_rewards_twice ledger farm claimed 1 9 stake rewards 5_000 refl refl something_earned
      earnings_fit rewards_paid

abbrev staked : Store mock.World
unfolding stake_lp_tokens
staked = after farm (stake_lp_tokens ledger 1 9 9_000 farm)

shares_staked : stake_lp_tokens ledger 1 9 9_000 farm ≡ ok (tt, staked)
unfolding stake_lp_tokens accrue_rewards lookup
shares_staked = refl

-- A loan of user 2 that is overdue at `later` and is not covered by its collateral.
abbrev loan : LoanRecord
loan = record {
  loan_id = 1;
  borrower = 2;
  asset = 9;
  principal = 1_000;
  collateral_amount = 900;
  collateral_token = 8;
  borrow_time = 1_000;
  due_date = 4_600;
  interest_rate_bps = 666;
}

abbrev lending_pool : PoolState
lending_pool = record pool { total_borrowed = 1_000; bad_debt_reserve = 500 }

abbrev insurance : LoanInsurance
insurance = record {
  loan_id = 1;
  borrower = 2;
  coverage_amount = 1_000;
  premium_paid = 20;
  premium_rate_bps = 200;
  purchase_time = 1_000;
  expires_at = 263_800;
  claimed = false;
}

abbrev lent : Store mock.World
lent = record store {
  pools = λ a. elim (a == 9) [ true ↦ some lending_pool | false ↦ none ];
  loans = λ a. elim (a == 2) [ true ↦ some loan | false ↦ none ];
  loans_by_id = λ i. elim (i == 1) [ true ↦ some loan | false ↦ none ];
  user_loans = λ a. elim (a == 2) [ true ↦ 1 ∷ [] | false ↦ [] ];
  next_loan_id = some 2;
  insurance = λ i. elim (i == 1) [ true ↦ some insurance | false ↦ none ];
  insurance_fund =
      some (record {
        total_premiums_collected = 20;
        total_claims_paid = 0;
        available_balance = 5_000;
      });
}

abbrev accrued : Store mock.World
unfolding accrue_interest_with_reserve
accrued = after lent (accrue_interest_with_reserve later 1 lent)

interest_fits :
    lending_pool.retained_yield
      + lending_pool.bad_debt_reserve
      + lending_pool.total_protocol_revenue
      + interest_due later loan
      + interest_due later loan
    < u64_mod
unfolding interest_due calculate_interest
interest_fits = omega arith

interest_accrued : accrue_interest_with_reserve later 1 lent ≡ ok (tt, accrued)
unfolding accrue_interest_with_reserve
interest_accrued = refl

accrue_interest_with_reserve_twice_example :
    Returns
      (λ done u.
        (aside_of accrued 9 ≡ aside_of lent 9 + interest_due later loan)
        × (aside_of u 9 ≡ aside_of accrued 9 + interest_due later loan)
        × (u.loans_by_id ≡ lent.loans_by_id))
      (accrue_interest_with_reserve later 1 accrued)
accrue_interest_with_reserve_twice_example =
    accrue_interest_with_reserve_twice later lent accrued 1 loan lending_pool refl refl
      (omega arith) interest_fits interest_accrued

abbrev written_off : Store mock.World
unfolding liquidate_bad_debt
written_off = after lent (liquidate_bad_debt mock later 7 2 lent)

debt_written_off : liquidate_bad_debt mock later 7 2 lent ≡ ok (101, written_off)
unfolding liquidate_bad_debt get_repayment_amount calculate_late_fee write_off interest_due
    calculate_interest mul_div_u128
debt_written_off = refl

liquidate_bad_debt-WrittenOff_example :
    (l : LoanRecord) × (p : PoolState) × WrittenOff mock later lent written_off 7 2 101 l p
liquidate_bad_debt-WrittenOff_example =
    liquidate_bad_debt-WrittenOff mock later lent written_off 7 2 101 debt_written_off

abbrev covered : Store mock.World
unfolding claim_insurance
covered = after lent (claim_insurance later 1 lent)

cover_paid : claim_insurance later 1 lent ≡ ok (1_000, covered)
unfolding claim_insurance
cover_paid = refl

abbrev farming : Upkeep
farming = Upkeep.stake 1 9 9_000

upkeep_staked : apply_upkeep mock ledger farming farm ≡ ok (tt, staked)
unfolding apply_upkeep stake_lp_tokens accrue_rewards lookup
upkeep_staked = refl

apply_upkeep-KeepsTotals_example : KeepsTotals farm staked
apply_upkeep-KeepsTotals_example =
    apply_upkeep-KeepsTotals mock ledger farm staked farming upkeep_staked
