-- ===== src/Lib.antt =====
-- XourceX: an inheritance protocol on Stellar. Its Soroban contracts hold the money: a lending pool
-- that earns yield on deposits, the access-control library that the larger contracts call, the token
-- that is used in tests, an NFT for each loan, a vault for each plan, and the inheritance contract.
-- A backend service in Rust indexes and calls them.
--
-- The parts that are modelled, and where:
--   Prelude       the shared names, Rust's machine integers, the outcome of a contract call, and
--                 storage maps.
--   AccessControl contracts/access-control/src/lib.rs. `AccessStore` has a field for each key of
--                 `AccessControlKey`, and every function of the library is one definition of the
--                 same name. AccessControl/Roles and Locks hold its theorems.
--   MockToken     contracts/mock-token/src/lib.rs: `Token` is its storage, amounts are the ℤ of
--                 Prelude/Int within the range of an i128.
--   Lending       contracts/lending-contract/src/lib.rs and reserves.rs. Lending/Types has the
--                 stored structs, errors and events; Lending/Store the storage with a field for each
--                 key of `DataKey` that is modelled, and the private getters and setters;
--                 Lending/Math the formulas; Lending/Pool `deposit`, `withdraw` and
--                 `withdraw_priority`; Lending/Terms and Loans `borrow` and `repay`; Lending/Flash
--                 `flash_loan`; Lending/Liquidation `liquidate`; Lending/Refinance the
--                 refinancing, consolidation and splitting of loans; Lending/ReserveFund the
--                 reserve factor, the bad-debt reserve and write-offs; Lending/Rewards the farming
--                 of shares; Lending/Insurance the insurance of loans; Lending/PlanYield the yield
--                 positions of inheritance plans; Lending/Upkeep the entry points of the last four
--                 that leave the pools' totals, as one set of calls; Lending/Admin initialization
--                 and the settings; Lending/RateViews the rate views; Lending/ErrorCodes the
--                 numbers of the errors. A module's theorems stand in its children.
--                 Lending/Steps is the pool as one machine, whose steps are the calls of its entry
--                 points, flash-loan callbacks that make such calls included.
--   LoanNft       contracts/loan-nft/src/lib.rs: `Nft` has a field for each key of its `DataKey`, and
--                 each entry point is one definition of the same name.
--   PlanVault     contracts/plan-vault/src/lib.rs: `Vault` has a field for each key of `PlanVaultKey`.
--   SafeMath      contracts/inheritance-contract/src/safe_math.rs, which that contract's lib.rs does
--                 not include as a module: each function is one definition of the same name, and the
--                 errors are those that the file names.
--   YieldMath     contracts/inheritance-contract/src/yield_math.rs, which that contract uses: each
--                 function is one definition of the same name, on naturals within u64 and u128.
--   Inheritance   contracts/inheritance-contract/src/lib.rs and disputes.rs. Inheritance/Types has the
--                 structs, errors and events; Inheritance/Store the storage, with a field for each
--                 key of `DataKey` that is modelled, the guards, getters and setters;
--                 Inheritance/Vaults the calls of other contracts; Inheritance/Hashing the hashes
--                 and the count of attempts; Inheritance/Beneficiaries, Plans, Settings, Claims,
--                 Emergency, Triggers, Conditions (what sets a trigger's conditions), Recall (the
--                 loan side of a trigger), Disputes and Admin the entry points of these parts.
--                 Inheritance/Allocations and Books have lemmas on the beneficiaries of a plan;
--                 Inheritance/Steps is the contract as one machine, whose steps are the calls of
--                 its entry points.
-- `borrow` and `repay` are long: each is the composition of four stages, in the order of the source,
-- and a stage has the effects of its lines whole. `create_inheritance_plan` and
-- `claim_inheritance_plan` are cut into stages in the same way.
--
-- How a call is modelled. An entry point is a function of the storage. It ends in `ok` with a value
-- and the new storage, in `err` with the contract's error, or in `trap`, which is a panic: a failed
-- `require_auth`, an explicit panic, or an arithmetic overflow (contracts/Cargo.toml sets
-- overflow-checks for releases). The host undoes the writes of a call that fails, so only `ok`
-- carries a storage. A key that is absent reads as the default that the code gives it; a u64 or u32
-- is a natural number, with each cast, check and saturation written out, and `-` on naturals stands
-- for the saturating subtraction or for one that a check before it makes exact. An address is a
-- number. `Ledger` is what `env` tells a call: the time, the ledger's sequence number, who
-- authorised the call, and the contract's own address.
--
-- What is outside. The token and NFT contracts that the pool calls are a parameter, `External`: what
-- they store is an abstract `World`, and a call of them that fails is `none`. The receiver of a
-- flash loan is a parameter too: its callback may change every contract's storage, the pool's own
-- included. The tokens of a plan vault are its parameter `Tokens`, in the same way. The inheritance
-- contract has an `External` of its own: the tokens, the plan vaults that it deploys, the host's
-- sha256 and its random numbers. The theorems ask nothing of any of these, unless a hypothesis says
-- so, as that no two texts have the same hash.
--
-- Loops. `append_u64_to_bytes` fills a buffer of 20 bytes from its end; `fill_digits` recurs on the
-- bytes that are left, and 20 are enough for every u64. The loop of `pow_factor` halves its exponent
-- each turn and runs on fuel 64 in SafeMath, which is enough for a u64, and on fuel 16 in YieldMath,
-- which is enough for the 36 500 periods that are the most. The other loops recur on a list.
--
-- Not modelled: of the lending pool, wrapped tokens, the upgrade entry points, the lifetime of
-- storage entries, log lines, and the getters that only read one key; of the inheritance contract,
-- yield harvesting, wills, legacy messages, batch calls, acknowledgments, wrapped tokens, the plan
-- lists that only read, and the upgrade entry points (`Step` has none of them; its step `others` is
-- what other contracts do); its file gas_optimization.rs, which lib.rs does not include; and the
-- backend, which is glue over a database and network services. A refinancing is a step of the pool
-- as one machine only while every pool's utilization cap is below 100%: with a cap of 100% or more
-- the code lets it raise the borrowings above the deposits. In the inheritance contract, legal
-- holds, frozen beneficiaries and exit settlements are read as they stand in the storage, and no
-- code of the contract creates them. A text of more than 256 bytes traps where it is hashed, as the
-- host's copy does. The host's refusal of calls back into the contract is not modelled, nor needed:
-- the parameter `External` makes none. The vault is the one of a production build, `cfg(not(test))`.
pub mod Prelude
pub mod AccessControl
pub mod MockToken
pub mod LoanNft
pub mod PlanVault
pub mod SafeMath
pub mod YieldMath
pub mod Lending
pub mod Inheritance
