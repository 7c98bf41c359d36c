-- ===== src/Lending/Tests.antt =====
-- Runs of the lending contract over the repository's mock token, and the witnesses of its theorems.
mod Setup
mod Pools
mod Loans
mod Machine
mod Rates
mod Positions
mod Reserves
mod Refinance
