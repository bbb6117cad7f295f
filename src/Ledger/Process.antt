-- ===== src/Ledger/Process.antt =====
-- crates/los-core/src/lib.rs, lines 324 to 425 and 658 to 680: the stages of `process_block` that all
-- block types share, and `claim_accumulated_fees`. `now` is the system clock.
use unauthority_core.Base.{
  is_char_boundary, ℕ, ◌+◌, Str, codes, Bool, true, false, not, ◌&&◌, none, some, ltb, u64,
  if◌then◌else◌, str_eq, length, min, str_key,
}
use unauthority_core.Base.Map.{lookup, contains, insert}
use unauthority_core.Base.Outcome.{Outcome, ok, err, panic}
use unauthority_core.Crypto.{Platform, public_key_to_address}
use unauthority_core.Ledger.Block.{
  Block, BlockType, is_empty, verify_pow, verify_block_signature, calculate_hash,
}
use unauthority_core.Ledger.State.{
  AccountState, empty_account, Ledger, LedgerError, ProcessResult, applied, duplicate, Method, pure,
  gets, check, ensure, modify, ◌>>=◌, ◌>>◌,
}
use unauthority_core.Ledger.Apply.{is_receive, apply_type}

abbrev pub max_timestamp_drift_secs : ℕ
max_timestamp_drift_secs = 300

abbrev pub needs_owner : BlockType → Bool
needs_owner BlockType.send = true
needs_owner BlockType.change = true
needs_owner BlockType.contract_deploy = true
needs_owner BlockType.contract_call = true
needs_owner _ = false

abbrev pub may_create : BlockType → Bool
may_create BlockType.mint = true
may_create BlockType.receive = true
may_create _ = false

-- Stage 3: a block that spends is signed with the key from which its account's address derives.
unfoldable pub check_owner : Platform → Block → Outcome LedgerError (Unit {0})
check_owner p b =
    if not (needs_owner b.block_type) then ok tt else elim (p.hex_decode b.public_key) [
      | none ↦ err LedgerError.invalid_key_hex
      | some pk_bytes ↦
          if is_empty pk_bytes
          then err LedgerError.empty_key
          else if not (str_eq (public_key_to_address p pk_bytes) b.account)
          then err LedgerError.not_owner
          else ok tt
    ]

-- Only Mint and Receive create accounts. The error message slices the address at 16 bytes.
unfoldable pub check_account : Block → Ledger → Outcome LedgerError (Unit {0})
check_account b l =
    if not (may_create b.block_type) && not (contains b.account l.accounts)
    then if is_char_boundary b.account (min (length b.account) 16)
      then err LedgerError.account_missing
      else panic
    else ok tt

unfoldable pub account_of : Block → Ledger → AccountState
account_of b l = elim (lookup b.account l.accounts) [ none ↦ empty_account | some state ↦ state ]

-- Stage 7, and the check of the chain before it.
unfoldable pub check_order : ℕ → Block → AccountState → Ledger → Outcome LedgerError (Unit {0})
check_order now b state l =
    if not (str_eq b.previous state.head)
    then err LedgerError.chain_error
    else if ltb (u64 (now + max_timestamp_drift_secs)) b.timestamp
    then err LedgerError.future_timestamp
    else if str_eq b.previous (codes "0")
    then ok tt
    else elim (lookup b.previous l.blocks) [
      | none ↦ ok tt
      | some prev_block ↦
          if ltb b.timestamp prev_block.timestamp then err LedgerError.past_timestamp else ok tt
    ]

-- The account and the block are written, and a claimed Send is remembered.
unfoldable pub commit : Block → Str → AccountState → Ledger → Ledger
commit b block_hash state l = record l {
  accounts =
      insert b.account
        (record state { head = block_hash; block_count = u64 (state.block_count + 1) }) l.accounts;
  blocks = insert block_hash b l.blocks;
  claimed_sends =
      if is_receive b.block_type then insert b.link tt l.claimed_sends else l.claimed_sends;
}

-- What follows the test for a duplicate.
unfoldable pub process_new : Platform → ℕ → Block → Str → Method ProcessResult
process_new p now b block_hash = do
  exists ← gets (check_account b)
  check exists
  state ← gets (account_of b)
  ordered ← gets (check_order now b state)
  check ordered
  state' ← apply_type b.block_type p b state
  modify (commit b block_hash state')
  pure (applied block_hash)

unfoldable pub process_block : Platform → ℕ → Block → Method ProcessResult
process_block p now b = do
  ensure (verify_pow p b) LedgerError.invalid_pow
  ensure (verify_block_signature p b) LedgerError.invalid_signature
  check (check_owner p b)
  let block_hash = calculate_hash p b
  (λ l.
      if contains block_hash l.blocks
      then (ok (duplicate block_hash), l)
      else process_new p now b block_hash l)

unfoldable pub claim_accumulated_fees : Ledger → ℕ × Ledger
claim_accumulated_fees l = (l.accumulated_fees_cil, record l { accumulated_fees_cil = 0 })
