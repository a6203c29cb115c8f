-- ===== src/Sodium.antt =====
-- What src/noise.c uses of libsodium, as a parameter of the model: the AEAD, BLAKE2b, X25519 and
-- the outcome of sodium_malloc. None of it is implemented in this repository.
use noxtor_cli.Prelude.{◌+◌, ◌≡◌, Bool, Option, some, length}
use noxtor_cli.Common.{Bytes, key_len, mac_len, hash_len}

pub record Sodium : Type 0 where
  -- crypto_aead_chacha20poly1305_ietf_encrypt and _decrypt: key, nonce, associated data, input.
  pub aead_encrypt : Bytes → Bytes → Bytes → Bytes → Option Bytes
  pub aead_decrypt : Bytes → Bytes → Bytes → Bytes → Option Bytes
  -- crypto_generichash_blake2b with a 64-byte digest, of the concatenated updates.
  pub blake2b : Bytes → Bytes
  -- crypto_scalarmult_curve25519: private key, public key.
  pub scalarmult : Bytes → Bytes → Option Bytes
  -- The public key that a key pair holds beside its private key.
  pub public_of : Bytes → Bytes
  -- Whether the buffers of one HMAC call, or of one HKDF call, can be allocated; the arguments
  -- are those of the call.
  pub hmac_alloc : Bytes → Bytes → Bool
  pub hkdf_alloc : Bytes → Bytes → Bool

-- The documented behaviour of the primitives. Nothing is said of their strength.
pub record SodiumLaws (S : Sodium) : Type 0 where
  -- Decryption undoes encryption under the same key, nonce and associated data.
  pub decrypt_encrypt :
      (k n a p c : Bytes) → S.aead_encrypt k n a p ≡ some c → S.aead_decrypt k n a c ≡ some p
  -- Encryption does not fail, and appends a tag of 16 bytes.
  pub encrypt_total : (k n a p : Bytes) → (c : Bytes) × (S.aead_encrypt k n a p ≡ some c)
  pub encrypt_length :
      (k n a p c : Bytes) → S.aead_encrypt k n a p ≡ some c → length c ≡ length p + mac_len
  pub blake2b_length : (m : Bytes) → length (S.blake2b m) ≡ hash_len
  -- A public key has 32 bytes, and both ends of an exchange compute one point.
  pub public_length : (a : Bytes) → length (S.public_of a) ≡ key_len
  pub scalarmult_comm :
      (a b : Bytes) → S.scalarmult a (S.public_of b) ≡ S.scalarmult b (S.public_of a)
