-- ===== src/Crypto/Addresses.antt =====
-- Addresses made from a public key are valid, and give the key's hash back.
use unauthority_core.Base.{
  ℕ, codes, ◌≡◌, refl, true, some, List, ◌∷◌, ◌++◌, arith, str_eq, str_eq_iff, starts_with, length,
  take, drop, length-take, take-append, drop-append, length-append,
}
use unauthority_core.Crypto.{
  Platform, public_key_to_address, validate_address, address_to_pubkey_hash, checksum_of,
}

-- What the documentation of the crates promises: digests of a fixed size, and that Base58
-- decoding undoes the encoding.
pub record IsDocumented (p : Platform) : Type 0 where
  pub blake2b512_size : (m : List ℕ) → length (p.blake2b512 m) ≡ 64
  pub sha256_size : (m : List ℕ) → length (p.sha256 m) ≡ 32
  pub base58_round_trip : (m : List ℕ) → p.base58_decode (p.base58_encode m) ≡ some m

module _ (p : Platform) (d : IsDocumented p) (key : List ℕ) where
  payload : List ℕ
  payload = 0x4a ∷ take 20 (p.blake2b512 key)

  length-payload : length payload ≡ 21
  unfolding payload
  length-payload = omega (arith, length-take 20 (p.blake2b512 key), d.blake2b512_size key)

  checksum : List ℕ
  checksum = checksum_of p payload

  length-checksum : length checksum ≡ 4
  unfolding checksum
  length-checksum =
      omega (arith, length-take 4 (p.sha256 (p.sha256 payload)), d.sha256_size (p.sha256 payload))

  decode-address :
      p.base58_decode (drop 3 (public_key_to_address p key)) ≡ some (payload ++ checksum)
  unfolding public_key_to_address payload checksum
  decode-address = d.base58_round_trip (payload ++ checksum)

  starts-address : starts_with (public_key_to_address p key) (codes "LOS") ≡ true
  unfolding public_key_to_address starts_with
  starts-address = refl

  length-decoded : length (payload ++ checksum) ≡ 25
  length-decoded = omega (arith, length-append payload checksum, length-payload, length-checksum)

  checksum_found :
      str_eq (drop 21 (payload ++ checksum)) (checksum_of p (take 21 (payload ++ checksum))) ≡ true
  checksum_found =
      rw
        (
          drop-append 21 payload checksum length-payload,
          take-append 21 payload checksum length-payload,
        )
        ((str_eq_iff checksum (checksum_of p payload)).1 (unfold checksum in refl))

  address_valid : validate_address p (public_key_to_address p key) ≡ true
  unfolding validate_address
  address_valid = rw (starts-address, decode-address, length-decoded) checksum_found

  hash_of_payload : take 20 (drop 1 (payload ++ checksum)) ≡ take 20 (p.blake2b512 key)
  unfolding payload
  hash_of_payload =
      take-append 20 (take 20 (p.blake2b512 key)) checksum
        (omega (arith, length-take 20 (p.blake2b512 key), d.blake2b512_size key))

-- Given digests of the documented size and a Base58 that decodes what it encodes, the address of
-- every public key is valid, and its key hash is the first 20 bytes of the key's BLAKE2b digest.
pub address_round_trip :
    (p : Platform)
    → IsDocumented p
    → (key : List ℕ)
    → (validate_address p (public_key_to_address p key) ≡ true)
      × (address_to_pubkey_hash p (public_key_to_address p key) ≡ some (take 20 (p.blake2b512 key)))
unfolding address_to_pubkey_hash
address_round_trip p d key = (
  address_valid p d key,
  rw (address_valid p d key, decode-address p d key, hash_of_payload p d key),
)
