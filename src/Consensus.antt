-- ===== src/Consensus.antt =====
-- crates/los-consensus.
pub mod Abft
pub mod Slashing
