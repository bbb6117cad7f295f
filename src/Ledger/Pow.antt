-- ===== src/Ledger/Pow.antt =====
-- The proof of work of a block, read as a statement about the bytes of its hash.
use unauthority_core.Ledger.Block.{Block}
