-- ===== src/Noise/Cipher.antt =====
-- src/noise.c, section 1 (CipherState) and section 4 (transport): the AEAD with a 64-bit nonce
-- counter. A buffer with its length is a byte string, so the tests for a NULL buffer have no
-- counterpart; `none` stands for the result -1, and the output buffer is part of the result.
use noxtor_cli.Prelude.{
  ℕ, ◌+◌, ◌*◌, ◌/◌, ◌%◌, ◌^◌, Bool, true, false, [], ◌∷◌, ◌++◌, Option, none, some, ltb, leb,
  if◌then◌else◌, length, not,
}
use noxtor_cli.Common.{
  Bytes, key_len, mac_len, max_msg_len, max_payload_len, uint64_max, u64_mod, zeros,
}
use noxtor_cli.Sodium.{Sodium}

-- struct noise_cipher_state
pub record CipherState : Type 0 where
  pub k : Bytes
  pub n : ℕ
  pub has_key : Bool

unfoldable pub cipher_init : CipherState
cipher_init = record { k = zeros key_len; n = 0; has_key = false }

-- The caller passes 32 bytes.
unfoldable pub cipher_init_key : Bytes → CipherState
cipher_init_key key = record { k = key; n = 0; has_key = true }

-- (uint8_t)(n >> (8 * i))
abbrev pub nonce_byte : ℕ → ℕ → ℕ
nonce_byte n i = n / 2 ^ (8 * i) % 256

unfoldable pub encode_nonce : ℕ → Bytes
encode_nonce n =
    zeros 4
    ++ (nonce_byte n 0
        ∷ nonce_byte n 1
        ∷ nonce_byte n 2
        ∷ nonce_byte n 3
        ∷ nonce_byte n 4
        ∷ nonce_byte n 5
        ∷ nonce_byte n 6
        ∷ nonce_byte n 7
        ∷ [])

-- atomic_fetch_add takes the nonce first; at UINT64_MAX the counter is put back.
unfoldable pub cipher_encrypt : Sodium → CipherState → Bytes → Bytes → CipherState × Option Bytes
cipher_encrypt S cs ad plaintext =
    if ltb max_msg_len (length plaintext)
    then (cs, none)
    else if not cs.has_key
    then (cs, some plaintext)
    else if leb uint64_max cs.n
    then (record cs { n = uint64_max }, none)
    else (
      record cs { n = (cs.n + 1) % u64_mod },
      S.aead_encrypt cs.k (encode_nonce cs.n) ad plaintext,
    )

-- atomic_fetch_add after a successful decryption.
abbrev advance : CipherState → Option Bytes → CipherState × Option Bytes
advance cs none = (cs, none)
advance cs (some pt) = (record cs { n = (cs.n + 1) % u64_mod }, some pt)

unfoldable pub cipher_decrypt : Sodium → CipherState → Bytes → Bytes → CipherState × Option Bytes
cipher_decrypt S cs ad ciphertext =
    if ltb max_payload_len (length ciphertext)
    then (cs, none)
    else if not cs.has_key
    then (cs, some ciphertext)
    else if ltb (length ciphertext) mac_len
    then (cs, none)
    else if leb uint64_max cs.n
    then (cs, none)
    else advance cs (S.aead_decrypt cs.k (encode_nonce cs.n) ad ciphertext)

-- struct noise_session
pub record Session : Type 0 where
  pub tx : CipherState
  pub rx : CipherState
  pub remote_static : Bytes

unfoldable pub noise_encrypt : Sodium → Session → Bytes → Session × Option Bytes
noise_encrypt S session plaintext =
    if ltb max_msg_len (length plaintext)
    then (session, none)
    else let (tx', r) = cipher_encrypt S session.tx [] plaintext in (record session { tx = tx' }, r)

unfoldable pub noise_decrypt : Sodium → Session → Bytes → Session × Option Bytes
noise_decrypt S session ciphertext =
    if ltb max_payload_len (length ciphertext)
    then (session, none)
    else if ltb (length ciphertext) mac_len
    then (session, none)
    else let (rx', r) = cipher_decrypt S session.rx [] ciphertext in
      (record session { rx = rx' }, r)
