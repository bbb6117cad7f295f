-- ===== src/Contracts.antt =====
-- crates/los-contracts: the contracts that are deployed to the virtual machine.
pub mod Decimal
pub mod Token
pub mod Dex
