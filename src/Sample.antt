-- ===== src/Sample.antt =====
-- A small platform for tests. Its Keccak-256 puts two zero bytes before its input, its other digests
-- are zeros of the documented size, its encodings change nothing, and it accepts every signature.
use unauthority_core.Base.{ℕ, zero, suc, true, some, List, [], ◌∷◌}
use unauthority_core.Crypto.{Platform}

abbrev pub zeros : ℕ → List ℕ
zeros zero = []
zeros (suc n) = 0 ∷ zeros n

abbrev pub toy : Platform
toy = record {
  mainnet = true;
  keccak256 = λ m. 0 ∷ 0 ∷ m;
  blake2b512 = λ m. zeros 64;
  sha256 = λ m. zeros 32;
  lower_hex = λ m. m;
  hex_encode = λ m. m;
  hex_decode = λ s. some s;
  base58_encode = λ m. m;
  base58_decode = λ s. some s;
  dilithium_key = λ k. true;
  dilithium_signature = λ s. true;
  dilithium_verify = λ s m k. true;
  ed25519_key = λ k. true;
  ed25519_signature = λ s. true;
  ed25519_verify = λ s m k. true;
}
