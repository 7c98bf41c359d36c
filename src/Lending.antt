-- ===== src/Lending.antt =====
-- contracts/lending-contract/src: the yield-generating lending pool.
-- Types and Store hold the data, Math the share, interest and rate formulas, and each group of
-- entry points has a module of its own, with what is proved of it in the module's children.
pub mod Types
pub mod ErrorCodes
pub mod Math
pub mod Store
pub mod Pool
pub mod Terms
pub mod Loans
pub mod Admin
pub mod RateViews
pub mod Flash
pub mod Liquidation
pub mod Rewards
pub mod ReserveFund
pub mod Insurance
pub mod PlanYield
pub mod Refinance
pub mod Upkeep
pub mod Steps
mod Tests
