-- ===== src/Ledger.antt =====
-- The block-lattice ledger of crates/los-core.
pub mod Block
pub mod State
pub mod Apply
pub mod Process
pub mod Applied
pub mod Supply
pub mod Conservation
pub mod Frame
pub mod History
pub mod Replay
pub mod Guards
pub mod Pow
pub mod Panics
mod Tests
