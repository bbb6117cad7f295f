-- ===== src/Ledger/Panics.antt =====
-- The one input on which `process_block` panics: the message for a missing account slices the
-- address at byte 16, which need not be the start of a character.
use unauthority_core.Base.{
  is_char_boundary, List, ℕ, ◌≡◌, ◌≢◌, ◌↔◌, Str, true, false, arith, str_key, min, length, inl, inr,
  Option-cases,
}
use unauthority_core.Base.Map.{contains}
use unauthority_core.Base.Outcome.{ok, panic}
use unauthority_core.Crypto.{Platform, public_key_to_address}
use unauthority_core.Ledger.Block.{
  Block, BlockType, verify_pow, verify_block_signature, calculate_hash,
}
use unauthority_core.Ledger.State.{AccountState, Ledger}
use unauthority_core.Ledger.Apply.{
  apply_type, apply_mint, debit, apply_send, apply_receive, check_receive, apply_change,
  apply_deploy, apply_call, apply_slash, check_slasher,
}
use unauthority_core.Ledger.Process.{
  check_owner, check_account, check_order, account_of, may_create, process_new, process_block,
}

-- The slice of a missing account's address stands inside a character.
abbrev pub SlicesInside : Platform → Block → Ledger → Type 0
SlicesInside p b l =
    (verify_pow p b ≡ true)
    × (verify_block_signature p b ≡ true)
    × (check_owner p b ≡ ok tt)
    × (contains (calculate_hash p b) l.blocks ≡ false)
    × (may_create b.block_type ≡ false)
    × (contains b.account l.accounts ≡ false)
    × (is_char_boundary b.account (min (length b.account) 16) ≡ false)

module _ (p : Platform) (b : Block) (l : Ledger)
    (sliceable : (key : List ℕ) → is_char_boundary (public_key_to_address p key) 16 ≡ true) where
  slasher-ne-panic : check_slasher p b l ≢ panic
  unfolding check_slasher
  slasher-ne-panic = elim (Option-cases (p.hex_decode b.public_key)) [
    | inl missing ↦ ground arith
    | inr (key, e) ↦ ground (arith, sliceable key)
  ]

  debit-ne-panic : (state : AccountState) → (debit b state l).0 ≢ panic
  unfolding debit
  debit-ne-panic state = ground arith

  receive-ne-panic : check_receive b l ≢ panic
  unfolding check_receive
  receive-ne-panic = ground arith

  apply_type-ne-panic :
      (t : BlockType) (state : AccountState) → (apply_type t p b state l).0 ≢ panic
  unfolding apply_type
  apply_type-ne-panic BlockType.mint state = unfold apply_mint in ground arith
  apply_type-ne-panic BlockType.send state =
      unfold apply_send in ground (arith, debit-ne-panic state)
  apply_type-ne-panic BlockType.receive state =
      unfold apply_receive in ground (arith, receive-ne-panic)
  apply_type-ne-panic BlockType.change state = unfold apply_change in ground arith
  apply_type-ne-panic BlockType.contract_deploy state =
      unfold apply_deploy in ground (arith, debit-ne-panic state)
  apply_type-ne-panic BlockType.contract_call state =
      unfold apply_call in ground (arith, debit-ne-panic state)
  apply_type-ne-panic BlockType.slash state = unfold apply_slash in ground (arith, slasher-ne-panic)

  order-ne-panic : (now : ℕ) (state : AccountState) → check_order now b state l ≢ panic
  unfolding check_order
  order-ne-panic now state = ground arith

  owner-ne-panic : check_owner p b ≢ panic
  unfolding check_owner
  owner-ne-panic = ground arith

  account-panics : (check_account b l ≡ panic) ↔ (
      (may_create b.block_type ≡ false)
      × (contains b.account l.accounts ≡ false)
      × (is_char_boundary b.account (min (length b.account) 16) ≡ false))
  unfolding check_account
  account-panics = (λ e. ground arith, λ e. ground arith)

  new-panics :
      (now : ℕ) (h : Str) → ((process_new p now b h l).0 ≡ panic) ↔ (check_account b l ≡ panic)
  unfolding process_new
  new-panics now h = (
    (λ e. ground (
      arith,
      order-ne-panic now (account_of b l),
      apply_type-ne-panic b.block_type (account_of b l),
    )),
    (λ e. ground arith),
  )

  block-panics : (now : ℕ) → ((process_block p now b l).0 ≡ panic) ↔ SlicesInside p b l
  unfolding process_block
  block-panics now = (
    (λ e. ground (arith, owner-ne-panic, new-panics now (calculate_hash p b), account-panics)),
    (λ e. ground (arith, new-panics now (calculate_hash p b), account-panics)),
  )

-- If byte 16 of every address made from a key is the start of a character, then `process_block`
-- panics exactly on a block that has passed the proof-of-work, signature and owner checks, is new,
-- may not create its account (in effect a Slash), has an account that the ledger lacks, and has an
-- account name that cannot be cut at its sixteenth byte.
pub process_block_panics_iff :
    (p : Platform) (b : Block) (l : Ledger)
    → ((key : List ℕ) → is_char_boundary (public_key_to_address p key) 16 ≡ true)
    → (now : ℕ) → ((process_block p now b l).0 ≡ panic) ↔ SlicesInside p b l
process_block_panics_iff p b l sliceable now = block-panics p b l sliceable now
