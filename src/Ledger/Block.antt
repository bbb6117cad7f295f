-- ===== src/Ledger/Block.antt =====
-- crates/los-core/src/lib.rs, lines 13 to 246: the constants of the ledger, blocks, their hashes,
-- the proof of work and the signature of a block.
use unauthority_core.Base.{
  ℕ, ◌+◌, ◌*◌, Str, Bool, true, false, not, Option, none, some, List, [], ◌∷◌, ◌++◌, ◌==◌, leb, u32,
  to_le_bytes, if◌then◌else◌,
}
use unauthority_core.Crypto.{Platform, verify_signature}

abbrev pub cil_per_los : ℕ
cil_per_los = 100_000_000_000

abbrev pub min_validator_stake_cil : ℕ
min_validator_stake_cil = 1_000 * cil_per_los

abbrev pub base_fee_cil : ℕ
base_fee_cil = 100_000

abbrev pub min_pow_difficulty_bits : ℕ
min_pow_difficulty_bits = 16

abbrev pub min_deploy_fee_cil : ℕ
min_deploy_fee_cil = 1_000_000_000

abbrev pub min_call_fee_cil : ℕ
min_call_fee_cil = base_fee_cil

-- The constant that the build's feature selects.
abbrev pub chain_id : Platform → ℕ
chain_id p = if p.mainnet then 1 else 2

abbrev pub is_testnet_build : Platform → Bool
is_testnet_build p = not (chain_id p == 1)

pub data BlockType : Type 0 where
  send receive change mint slash contract_deploy contract_call : BlockType

pub record Block : Type 0 where
  pub account : Str
  pub previous : Str
  pub block_type : BlockType
  pub amount : ℕ  -- u128
  pub link : Str
  pub signature : Str
  pub public_key : Str
  pub work : ℕ  -- u64
  pub timestamp : ℕ  -- u64
  pub fee : ℕ  -- u128

abbrev pub type_byte : BlockType → ℕ
type_byte BlockType.send = 0
type_byte BlockType.receive = 1
type_byte BlockType.change = 2
type_byte BlockType.mint = 3
type_byte BlockType.slash = 4
type_byte BlockType.contract_deploy = 5
type_byte BlockType.contract_call = 6

abbrev pub is_empty : Str → Bool
is_empty [] = true
is_empty (b ∷ s) = false

-- `hex::decode(…).unwrap_or_default()`
abbrev pub decode_or_empty : Option (List ℕ) → List ℕ
decode_or_empty none = []
decode_or_empty (some bytes) = bytes

-- `u8::leading_zeros`
abbrev pub leading_zeros : ℕ → ℕ
leading_zeros b =
    if leb 128 b
    then 0
    else if leb 64 b
    then 1
    else if leb 32 b
    then 2
    else if leb 16 b
    then 3
    else if leb 8 b
    then 4
    else if leb 4 b
    then 5
    else if leb 2 b
    then 6
    else if leb 1 b
    then 7
    else 8

-- The loop of `verify_pow`, which stops at the first byte that is not 0.
unfoldable pub count_zero_bits : ℕ → List ℕ → ℕ
count_zero_bits zero_bits [] = zero_bits
count_zero_bits zero_bits (byte ∷ bytes) =
    let rest = count_zero_bits (u32 (zero_bits + 8)) bytes in
    if byte == 0 then rest else u32 (zero_bits + leading_zeros byte)

module _ (p : Platform) where
  -- All that a signature covers, in the order in which it is hashed.
  unfoldable pub signed_bytes : Block → List ℕ
  signed_bytes b =
      to_le_bytes 8 (chain_id p)
      ++ (b.account
          ++ (b.previous
              ++ (type_byte b.block_type
                  ∷ (to_le_bytes 16 b.amount
                      ++ (b.link
                          ++ (b.public_key
                              ++ (to_le_bytes 8 b.work
                                  ++ (to_le_bytes 8 b.timestamp ++ to_le_bytes 16 b.fee))))))))

  unfoldable pub signing_hash : Block → Str
  signing_hash b = p.hex_encode (p.keccak256 (signed_bytes b))

  unfoldable pub calculate_hash : Block → Str
  calculate_hash b = p.hex_encode (p.keccak256 (signing_hash b ++ b.signature))

  unfoldable pub verify_block_signature : Block → Bool
  verify_block_signature b =
      if is_empty b.signature
      then false
      else if is_empty b.public_key
      then false
      else verify_signature p (signing_hash b) (decode_or_empty (p.hex_decode b.signature))
          (decode_or_empty (p.hex_decode b.public_key))

  unfoldable pub verify_pow : Block → Bool
  verify_pow b = elim (p.hex_decode (signing_hash b)) [
    | none ↦ false
    | some hash_bytes ↦ leb min_pow_difficulty_bits (count_zero_bits 0 hash_bytes)
  ]
