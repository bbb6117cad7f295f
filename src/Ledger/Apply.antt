-- ===== src/Ledger/Apply.antt =====
-- crates/los-core/src/lib.rs, lines 426 to 656: what a block does to its account, one function for
-- each block type.
use unauthority_core.Base.{
  is_char_boundary, ℕ, ◌+◌, ◌-◌, ◌*◌, Str, codes, Bool, true, false, not, ◌||◌, none, some, ◌==◌,
  ltb, leb, u128, checked_add, saturating_add, saturating_sub, if◌then◌else◌, str_eq, starts_with,
  split, parse_u128, trim, length, drop, get_elem?, min, str_key,
}
use unauthority_core.Base.Map.{lookup, contains}
use unauthority_core.Base.Outcome.{Outcome, ok, err, panic}
use unauthority_core.Crypto.{Platform, public_key_to_address}
use unauthority_core.Ledger.Block.{
  Block, BlockType, cil_per_los, min_validator_stake_cil, min_deploy_fee_cil, min_call_fee_cil,
  is_testnet_build, is_empty,
}
use unauthority_core.Ledger.State.{
  AccountState, Ledger, LedgerError, Method, pure, gets, lift, check, ensure, modify, ◌>>=◌, ◌>>◌,
}

abbrev pub max_mint_per_block : ℕ
max_mint_per_block = 1_000 * cil_per_los

abbrev pub min_tx_fee_cil : ℕ
min_tx_fee_cil = 100_000

abbrev pub is_send : BlockType → Bool
is_send BlockType.send = true
is_send _ = false

abbrev pub is_receive : BlockType → Bool
is_receive BlockType.receive = true
is_receive _ = false

abbrev pub is_system_mint : Str → Bool
is_system_mint link = starts_with link (codes "REWARD:") || starts_with link (codes "FEE_REWARD:")

abbrev pub is_faucet : Platform → Str → Bool
is_faucet p link =
    if is_testnet_build p
    then starts_with link (codes "FAUCET:")
      || starts_with link (codes "TESTNET:")
      || starts_with link (codes "Src:")
    else false

-- The burned value that the fourth part of the link states, if it is a number.
unfoldable pub burned_usd : Str → ℕ → ℕ
burned_usd link total = elim (get_elem? (split b':' link) 3) [
  | none ↦ total
  | some part ↦ elim (parse_u128 (trim part)) [ none ↦ total | some price ↦ u128 (total + price) ]
]

unfoldable pub apply_mint : Platform → Block → AccountState → Method AccountState
apply_mint p b state = do
  remaining ← gets (λ l. l.distribution.remaining_supply)
  ensure (not (ltb remaining b.amount)) LedgerError.supply_exhausted
  ensure (is_system_mint b.link || (is_faucet p b.link || not (ltb max_mint_per_block b.amount)))
      LedgerError.anti_whale
  modify (λ l. record l {
    distribution = record {
      remaining_supply = saturating_sub remaining b.amount;
      total_burned_usd = burned_usd b.link l.distribution.total_burned_usd;
    };
  })
  pure (record state { balance = saturating_add state.balance b.amount })

-- The debit of amount and fee that Send, ContractDeploy and ContractCall share.
unfoldable pub debit : Block → AccountState → Method AccountState
debit b state = do
  total_debit ←
      lift (elim (checked_add b.amount b.fee) [
        | none ↦ err LedgerError.amount_overflow
        | some t ↦ ok t
      ])
  ensure (not (ltb state.balance total_debit)) LedgerError.insufficient_funds
  modify (λ l. record l { accumulated_fees_cil = saturating_add l.accumulated_fees_cil b.fee })
  pure (record state { balance = state.balance - total_debit })

unfoldable pub apply_send : Block → AccountState → Method AccountState
apply_send b state = do ensure (leb min_tx_fee_cil b.fee) LedgerError.fee_too_low; debit b state

-- The four checks of the Send block that a Receive block refers to.
unfoldable pub check_receive : Block → Ledger → Outcome LedgerError (Unit {0})
check_receive b l = elim (lookup b.link l.blocks) [
  | none ↦ err LedgerError.send_not_found
  | some send_block ↦
      if not (is_send send_block.block_type)
      then err LedgerError.not_a_send
      else if not (str_eq send_block.link b.account)
      then err LedgerError.wrong_recipient
      else if not (send_block.amount == b.amount)
      then err LedgerError.amount_mismatch
      else if contains b.link l.claimed_sends
      then err LedgerError.already_received
      else ok tt
]

unfoldable pub apply_receive : Block → AccountState → Method AccountState
apply_receive b state = do
  checked ← gets (check_receive b)
  check checked
  pure (record state { balance = saturating_add state.balance b.amount })

unfoldable pub apply_change : Block → AccountState → Method AccountState
apply_change b state = do ensure (not (is_empty b.link)) LedgerError.empty_link; pure state

unfoldable pub apply_deploy : Block → AccountState → Method AccountState
apply_deploy b state = do
  ensure (starts_with b.link (codes "DEPLOY:")) LedgerError.bad_deploy_link
  ensure (not (is_empty (drop 7 b.link) || ltb (length (drop 7 b.link)) 8))
      LedgerError.bad_code_hash
  ensure (leb min_deploy_fee_cil b.fee) LedgerError.deploy_fee_too_low
  debit b state

-- `splitn(3, ':')` makes three pieces at most.
unfoldable pub apply_call : Block → AccountState → Method AccountState
apply_call b state = do
  ensure (starts_with b.link (codes "CALL:")) LedgerError.bad_call_link
  ensure (not (ltb (min 3 (length (split b':' (drop 5 b.link)))) 2)) LedgerError.call_target_missing
  ensure (leb min_call_fee_cil b.fee) LedgerError.call_fee_too_low
  debit b state

-- The error messages slice the signer's address at 16 bytes.
abbrev pub refuse_signer : Str → LedgerError → Outcome LedgerError (Unit {0})
refuse_signer signer_addr e = if is_char_boundary signer_addr 16 then err e else panic

unfoldable pub check_slasher : Platform → Block → Ledger → Outcome LedgerError (Unit {0})
check_slasher p b l = elim (p.hex_decode b.public_key) [
  | none ↦ err LedgerError.slash_key_hex
  | some pk_bytes ↦
      let signer_addr = public_key_to_address p pk_bytes in
      elim (lookup signer_addr l.accounts) [
        | none ↦ refuse_signer signer_addr LedgerError.signer_missing
        | some signer_state ↦
            if not signer_state.is_validator
            then refuse_signer signer_addr LedgerError.not_a_validator
            else if ltb signer_state.balance min_validator_stake_cil
            then refuse_signer signer_addr LedgerError.stake_too_low
            else ok tt
      ]
]

unfoldable pub apply_slash : Platform → Block → AccountState → Method AccountState
apply_slash p b state = do
  ensure (not (is_empty b.link)) LedgerError.no_evidence
  ensure (not (b.amount == 0)) LedgerError.zero_penalty
  checked ← gets (check_slasher p b)
  check checked
  pure (record state { balance = saturating_sub state.balance b.amount })

-- Stage 8, by the type of the block.
unfoldable pub apply_type : BlockType → Platform → Block → AccountState → Method AccountState
apply_type BlockType.mint p b state = apply_mint p b state
apply_type BlockType.send p b state = apply_send b state
apply_type BlockType.receive p b state = apply_receive b state
apply_type BlockType.change p b state = apply_change b state
apply_type BlockType.contract_deploy p b state = apply_deploy b state
apply_type BlockType.contract_call p b state = apply_call b state
apply_type BlockType.slash p b state = apply_slash p b state
