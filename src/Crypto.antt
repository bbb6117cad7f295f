-- ===== src/Crypto.antt =====
-- crates/los-crypto/src/lib.rs: signature verification and addresses. The hash functions, the text
-- encodings and the signature schemes are third-party crates, and so are parameters: the fields of
-- `Platform`. `mainnet` is the Cargo feature of that name.
pub mod Addresses
use unauthority_core.Base.{
  ℕ, Str, codes, Bool, true, false, not, ◌&&◌, Option, none, some, List, [], ◌∷◌, ◌++◌, ◌==◌,
  str_eq, starts_with, length, take, drop, if◌then◌else◌,
}

pub record Platform : Type 0 where
  pub mainnet : Bool
  -- sha3::Keccak256, blake2::Blake2b512, sha2::Sha256
  pub keccak256 : List ℕ → List ℕ
  pub blake2b512 : List ℕ → List ℕ
  pub sha256 : List ℕ → List ℕ
  -- `format!("{:x}", digest)` of a digest's byte array
  pub lower_hex : List ℕ → Str
  -- hex::encode and hex::decode, bs58::encode and bs58::decode
  pub hex_encode : List ℕ → Str
  pub hex_decode : Str → Option (List ℕ)
  pub base58_encode : List ℕ → Str
  pub base58_decode : Str → Option (List ℕ)
  -- pqcrypto_dilithium::dilithium5: `from_bytes` of a key and of a signature succeed, and
  -- verify_detached_signature(signature, message, key)
  pub dilithium_key : List ℕ → Bool
  pub dilithium_signature : List ℕ → Bool
  pub dilithium_verify : List ℕ → List ℕ → List ℕ → Bool
  -- ed25519_dalek, in the same way
  pub ed25519_key : List ℕ → Bool
  pub ed25519_signature : List ℕ → Bool
  pub ed25519_verify : List ℕ → List ℕ → List ℕ → Bool

module _ (p : Platform) where
  unfoldable pub verify_dilithium5 : List ℕ → List ℕ → List ℕ → Bool
  verify_dilithium5 message signature_bytes public_key_bytes =
      if not (p.dilithium_key public_key_bytes)
      then false
      else if not (p.dilithium_signature signature_bytes)
      then false
      else p.dilithium_verify signature_bytes message public_key_bytes

  unfoldable pub verify_ed25519 : List ℕ → List ℕ → List ℕ → Bool
  verify_ed25519 message signature_bytes public_key_bytes =
      if not (length public_key_bytes == 32)
      then false
      else if not (p.ed25519_key public_key_bytes)
      then false
      else if not (p.ed25519_signature signature_bytes)
      then false
      else p.ed25519_verify signature_bytes message public_key_bytes

  unfoldable pub verify_signature : List ℕ → List ℕ → List ℕ → Bool
  unfolding verify_dilithium5 verify_ed25519
  verify_signature message signature_bytes public_key_bytes =
      if not p.mainnet && (length public_key_bytes == 32) && (length signature_bytes == 64)
      then verify_ed25519 message signature_bytes public_key_bytes
      else verify_dilithium5 message signature_bytes public_key_bytes

  -- The first four bytes of a double SHA-256.
  abbrev pub checksum_of : List ℕ → List ℕ
  checksum_of payload = take 4 (p.sha256 (p.sha256 payload))

  unfoldable pub public_key_to_address : List ℕ → Str
  public_key_to_address public_key_bytes =
      let payload = 0x4a ∷ take 20 (p.blake2b512 public_key_bytes) in
      codes "LOS" ++ p.base58_encode (payload ++ checksum_of payload)

  unfoldable pub validate_address : Str → Bool
  validate_address address =
      if not (starts_with address (codes "LOS"))
      then false
      else elim (p.base58_decode (drop 3 address)) [
        | none ↦ false
        | some decoded ↦
            if not (length decoded == 25)
            then false
            else str_eq (drop 21 decoded) (checksum_of (take 21 decoded))
      ]

  unfoldable pub address_to_pubkey_hash : Str → Option (List ℕ)
  unfolding validate_address
  address_to_pubkey_hash address =
      if not (validate_address address) then none else elim (p.base58_decode (drop 3 address)) [
        | none ↦ none
        | some decoded ↦ some (take 20 (drop 1 decoded))
      ]
