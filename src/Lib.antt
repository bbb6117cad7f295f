-- ===== src/Lib.antt =====
-- Unauthority: the block-lattice ledger, the addresses and the consensus of its validators.
--
-- The node keeps a ledger with one chain of blocks for each account. A block carries its own proof
-- of work and signature, extends the chain of its account, and mints, sends, receives, changes a
-- representative, deploys or calls a contract, or slashes. Contracts read and write a store of texts through the host
-- of the virtual machine; two of them are part of the repository, a token and an exchange. Validators
-- agree on blocks with a
-- three-phase protocol, whose messages carry a keyed hash.
--
-- Files and what they model:
-- - Base, Base/*: shared names; texts as UTF-8 bytes (`Str`), the test and the repair of
--   bytes that may be no UTF-8 (`from_utf8`, `from_utf8_lossy`), machine words with their wrap-around,
--   ordered maps as association lists with distinct keys (`Map`), results that can be an error or a
--   panic (`Outcome`).
-- - Crypto, Crypto/Addresses: crates/los-crypto/src/lib.rs, the choice of signature scheme and the
--   addresses. The functions of other crates (Keccak, SHA-256, Blake2b, Base58, hex, Dilithium,
--   Ed25519) are the fields of the record `Platform`, which every definition takes; `IsDocumented`
--   states what the documentation of the encodings says.
-- - Ledger/*: crates/los-core/src/lib.rs and crates/los-core/src/distribution.rs. `Ledger` and
--   `AccountState` are the structs; `process_block` is the method, in stages that bear the names of
--   what they check or apply; a `Method` takes the ledger to a result and the ledger after it. The
--   clock is the argument `now`.
-- - Consensus/Abft, Consensus/Abft/*: crates/los-consensus/src/abft.rs. `Engine` is the struct
--   ABFTConsensus; each method is a function of the same name, which returns its result and the
--   engine after it.
-- - Consensus/Slashing, Consensus/Slashing/*: crates/los-consensus/src/slashing.rs. What a method
--   does to one validator's profile is a `Change`; `on_profile` applies it to the manager.
-- - Rewards, Rewards/*: crates/los-core/src/validator_rewards.rs. `ValidatorRewardPool` is the struct;
--   each method is a function of the same name.
-- - AntiWhale, AntiWhale/*: crates/los-core/src/anti_whale.rs. `AntiWhaleEngine` is the struct; each
--   method is a function of the same name, and the clock is the argument `now`.
-- - Voting, Voting/*: crates/los-consensus/src/voting.rs. `VotingSystem` is the map of the struct.
-- - Vm, Vm/*: crates/los-vm/src/host.rs, crates/los-sdk/src/lib.rs and the hosted call of
--   crates/los-vm/src/lib.rs. `HostData` is the data of one execution; a contract is a function on it,
--   and `try_hosted_call` takes what the engine computes as an argument.
-- - Contracts/Token, Contracts/Token/*: crates/los-contracts/src/usp01_token.rs, and Contracts/Dex,
--   Contracts/Dex/*: crates/los-contracts/src/dex_amm.rs. Each exported function is an action on
--   `HostData`; its checks are a function of their own, with the prefix `check_`.
-- - Sample and the Tests modules: a concrete platform and runs of the code on it.
--
-- Bounds and fuel: u32, u64 and u128 are numbers with the wrap-around of the release profile written
-- out, and `checked_` and `saturating_` methods as in the standard library. The loops run
-- over lists, except Newton's loop in `isqrt`, which takes the argument itself as its fuel: each
-- round makes the iterate smaller, and the printing of a decimal number in Base/Text, where forty
-- rounds are enough for a u128 (so in Contracts/Decimal).
--
-- Not modelled: events, logs, JSON answers and gas of contracts, the registries of contracts,
-- checkpoints, the oracle, the mempool and the limits on rates and fees, which stand apart from the
-- parts above; the servers,
-- database, transport, user interfaces and the calls of the WebAssembly engine, which are input and
-- output or belong to other crates; and floating-point code.
pub mod Base
pub mod Crypto
pub mod Sample
pub mod AntiWhale
pub mod Consensus
pub mod Contracts
pub mod Ledger
pub mod Rewards
pub mod Vm
pub mod Voting
