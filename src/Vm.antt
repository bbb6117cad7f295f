-- ===== src/Vm.antt =====
-- crates/los-vm and crates/los-sdk: the store of a contract, as the contract and the node see it.
pub mod Host
pub mod Sdk
pub mod Call
pub mod Persist
mod Tests
