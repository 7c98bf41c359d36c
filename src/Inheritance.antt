-- ===== src/Inheritance.antt =====
-- contracts/inheritance-contract/src/lib.rs: the inheritance contract.
pub mod Types
pub mod Store
pub mod Vaults
pub mod Hashing
pub mod Beneficiaries
pub mod Emergency
pub mod Triggers
pub mod Conditions
pub mod Recall
pub mod Plans
pub mod Settings
pub mod Claims
pub mod Admin
pub mod Disputes
pub mod Allocations
pub mod Books
pub mod Steps
mod Tests
