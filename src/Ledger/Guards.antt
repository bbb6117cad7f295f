-- ===== src/Ledger/Guards.antt =====
-- The guards of `process_block`: who may sign, when a block may be dated, how much may be minted.
use unauthority_core.Base.{
  ℕ, ◌+◌, ◌*◌, ◌≤◌, ◌<◌, ◌≡◌, ◌≢◌, refl, subst, Str, codes, true, false, some, List, arith, u64_mod,
  str_key, str_eq_iff, inl, inr, Option-cases,
}
use unauthority_core.Base.Map.{lookup}
use unauthority_core.Base.Outcome.{ok}
use unauthority_core.Crypto.{Platform, public_key_to_address, verify_signature}
use unauthority_core.Ledger.Block.{
  Block, BlockType, verify_block_signature, signing_hash, decode_or_empty, min_validator_stake_cil,
  cil_per_los,
}
use unauthority_core.Ledger.State.{AccountState, Ledger, applied}
use unauthority_core.Ledger.Apply.{
  apply_type, apply_mint, apply_slash, check_slasher, is_system_mint,
}
use unauthority_core.Ledger.Process.{
  account_of, check_owner, check_order, needs_owner, commit, process_block,
}
use unauthority_core.Ledger.Applied.{applied-IsApplied}

-- The block is signed by the key `key`.
abbrev pub IsSignedBy : Platform → Block → List ℕ → Type 0
IsSignedBy p b key =
    (p.hex_decode b.public_key ≡ some key)
    × (verify_signature p (signing_hash p b) (decode_or_empty (p.hex_decode b.signature)) key
        ≡ true)

verified :
    (p : Platform) (b : Block) (key : List ℕ)
    → p.hex_decode b.public_key ≡ some key
    → verify_block_signature p b ≡ true
    → IsSignedBy p b key
unfolding verify_block_signature
verified p b key e s = ground arith

owner_key :
    (p : Platform) (b : Block)
    → needs_owner b.block_type ≡ true
    → check_owner p b ≡ ok tt
    → (key : List ℕ) × (p.hex_decode b.public_key ≡ some key)
      × (public_key_to_address p key ≡ b.account)
unfolding check_owner
owner_key p b n c = elim (Option-cases (p.hex_decode b.public_key)) [
  | inl missing ↦ absurd (ground arith)
  | inr (key, e) ↦ (key, e, ground (arith, str_eq_iff (public_key_to_address p key) b.account))
]

-- A block that spends from an account or changes it (Send, Change, ContractDeploy, ContractCall) is
-- applied only if it is signed with a key from which the account's address derives.
pub only_owner_spends :
    (p : Platform) (now : ℕ) (b : Block) (l : Ledger) (h : Str) (l' : Ledger)
    → process_block p now b l ≡ (ok (applied h), l')
    → needs_owner b.block_type ≡ true
    → (key : List ℕ) × IsSignedBy p b key × (public_key_to_address p key ≡ b.account)
only_owner_spends p now b l h l' e n =
    let a = applied-IsApplied p now b l h l' e in
    let (key, decoded, same) = owner_key p b n a.owned in
    (key, verified p b key decoded a.signed, same)

-- The validator who signs a penalty.
abbrev pub IsSlasher : Platform → Ledger → List ℕ → AccountState → Type 0
IsSlasher p l key signer =
    (lookup (public_key_to_address p key) l.accounts ≡ some signer)
    × (signer.is_validator ≡ true)
    × (min_validator_stake_cil ≤ signer.balance)

slasher :
    (p : Platform) (b : Block) (l : Ledger)
    → check_slasher p b l ≡ ok tt
    → (key : List ℕ) × (p.hex_decode b.public_key ≡ some key)
      × (signer : AccountState) × IsSlasher p l key signer
unfolding check_slasher
slasher p b l c = elim (Option-cases (p.hex_decode b.public_key)) [
  | inl missing ↦ absurd (ground arith)
  | inr (key, e) ↦ elim (Option-cases (lookup (public_key_to_address p key) l.accounts)) [
    | inl unknown ↦ absurd (ground arith)
    | inr (signer, found) ↦ (key, e, signer, (found, ground arith, ground arith))
  ]
]

slash_checked :
    (p : Platform) (b : Block) (state state' : AccountState) (l m : Ledger)
    → apply_slash p b state l ≡ (ok state', m)
    → check_slasher p b l ≡ ok tt
unfolding apply_slash
slash_checked p b state state' l m e = ground arith

-- A Slash block is applied only if it is signed with the key of an account of the ledger that is
-- registered as a validator and holds at least the minimum stake of 1000 LOS.
pub only_validators_slash :
    (p : Platform) (now : ℕ) (b : Block) (l : Ledger) (h : Str) (l' : Ledger)
    → process_block p now b l ≡ (ok (applied h), l')
    → b.block_type ≡ BlockType.slash
    → (key : List ℕ) × IsSignedBy p b key × (signer : AccountState) × IsSlasher p l key signer
unfolding apply_type
only_validators_slash p now b l h l' e t =
    let a = applied-IsApplied p now b l h l' e in
    let changed =
      subst (λ t. apply_type t p b (account_of b l) l ≡ (ok a.state, a.middle)) t a.changed in
    let (key, decoded, signer, slashes) =
      slasher p b l (slash_checked p b (account_of b l) a.state l a.middle changed) in
    (key, verified p b key decoded a.signed, signer, slashes)

order_facts :
    (now : ℕ) (b : Block) (state : AccountState) (l : Ledger) (c : Block)
    → check_order now b state l ≡ ok tt
    → now + 300 < u64_mod
    → (b.timestamp ≤ now + 300)
      × (b.previous ≢ codes "0" → lookup b.previous l.blocks ≡ some c → c.timestamp ≤ b.timestamp)
unfolding check_order
order_facts now b state l c e fits =
    (ground arith, λ later found. ground (arith, str_eq_iff b.previous (codes "0"), later))

-- An applied block is dated at most 300 seconds after the clock (a clock that fits a u64), and, if
-- its predecessor is a stored block, not before that block.
pub timestamps_ordered :
    (p : Platform) (now : ℕ) (b : Block) (l : Ledger) (h : Str) (l' : Ledger) (c : Block)
    → process_block p now b l ≡ (ok (applied h), l')
    → now + 300 < u64_mod
    → (b.timestamp ≤ now + 300)
      × (b.previous ≢ codes "0" → lookup b.previous l.blocks ≡ some c → c.timestamp ≤ b.timestamp)
timestamps_ordered p now b l h l' c e fits =
    order_facts now b (account_of b l) l c (applied-IsApplied p now b l h l' e).ordered fits

mint_facts :
    (p : Platform) (b : Block) (state state' : AccountState) (l m : Ledger)
    → apply_mint p b state l ≡ (ok state', m)
    → (m.distribution.remaining_supply + b.amount ≡ l.distribution.remaining_supply)
      × (p.mainnet ≡ true → is_system_mint b.link ≡ false → b.amount ≤ 1_000 * cil_per_los)
unfolding apply_mint
mint_facts p b state state' l m e = (ground arith, λ main user. ground arith)

committed :
    (b : Block) (h : Str) (state : AccountState) (l : Ledger)
    → (commit b h state l).distribution ≡ l.distribution
unfolding commit
committed b h state l = refl

-- An applied Mint block takes its whole amount from the supply that is left; on the mainnet, unless
-- its link marks it as a reward of the system, the amount is at most 1000 LOS.
pub mint_is_limited :
    (p : Platform) (now : ℕ) (b : Block) (l : Ledger) (h : Str) (l' : Ledger)
    → process_block p now b l ≡ (ok (applied h), l')
    → b.block_type ≡ BlockType.mint
    → (l'.distribution.remaining_supply + b.amount ≡ l.distribution.remaining_supply)
      × (p.mainnet ≡ true → is_system_mint b.link ≡ false → b.amount ≤ 1_000 * cil_per_los)
unfolding apply_type
mint_is_limited p now b l h l' e t =
    let a = applied-IsApplied p now b l h l' e in
    let changed =
      subst (λ t. apply_type t p b (account_of b l) l ≡ (ok a.state, a.middle)) t a.changed in
    let (taken, limited) = mint_facts p b (account_of b l) a.state l a.middle changed in
    (cc (a.written, committed b h a.state a.middle, taken), limited)
