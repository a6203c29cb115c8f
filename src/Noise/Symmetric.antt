-- ===== src/Noise/Symmetric.antt =====
-- src/noise.c, section 2 (SymmetricState) and the X25519 helper of section 3.
use noxtor_cli.Prelude.{
  ℕ, ◌-◌, Bool, false, [], ◌∷◌, ◌++◌, map, Option, none, some, ltb, leb, bit_xor, if◌then◌else◌,
  length, take, not,
}
use noxtor_cli.Common.{Bytes, Err, Result, key_len, mac_len, hash_len, zeros, is_zero}
use noxtor_cli.Common.{ok, err}
use noxtor_cli.Sodium.{Sodium}
use noxtor_cli.Noise.Cipher.{
  CipherState, cipher_init, cipher_init_key, cipher_encrypt, cipher_decrypt,
}

-- struct noise_symmetric_state
pub record SymmetricState : Type 0 where
  pub ck : Bytes
  pub h : Bytes
  pub cs : CipherState

-- A protocol name of at most 64 bytes is padded with zeros, a longer one is hashed.
unfoldable pub symmetric_init : Sodium → Bytes → SymmetricState
symmetric_init S name =
    let h =
      if leb (length name) hash_len
      then name ++ zeros (hash_len - length name)
      else S.blake2b name in
    record { ck = h; h = h; cs = cipher_init }

unfoldable pub symmetric_mix_hash : Sodium → SymmetricState → Bytes → SymmetricState
symmetric_mix_hash S ss bytes = record ss { h = S.blake2b (ss.h ++ bytes) }

abbrev pub blake2b_block_size : ℕ
blake2b_block_size = 128

-- HMAC(k, m) = BLAKE2b((k ⊕ opad) || BLAKE2b((k ⊕ ipad) || m)), of a key of at most one block.
unfoldable pub hmac_value : Sodium → Bytes → Bytes → Bytes
hmac_value S key bytes =
    let k = key ++ zeros (blake2b_block_size - length key) in
    let ipad = map (λ b. bit_xor b 0x36) k in
    let opad = map (λ b. bit_xor b 0x5c) k in
    let inner = S.blake2b (ipad ++ bytes) in S.blake2b (opad ++ inner)

-- `err` leaves an output of zeros.
unfoldable pub noise_hmac_blake2b_64 : Sodium → Bytes → Bytes → Result Bytes
noise_hmac_blake2b_64 S key bytes =
    if not (S.hmac_alloc key bytes)
    then err Err.alloc
    else if ltb blake2b_block_size (length key)
    then err Err.crypto
    else ok (hmac_value S key bytes)

infixl 5 ◌>>=◌
abbrev pub ◌>>=◌ {ℓ κ} : {A : Type ℓ} {B : Type κ} → Result A → (A → Result B) → Result B
ok a >>= f = f a
err e >>= f = err e

-- Both outputs, or an error that leaves zeros in both.
unfoldable pub hkdf_blake2b : Sodium → Bytes → Bytes → Result (Bytes × Bytes)
hkdf_blake2b S ck ikm = if not (S.hkdf_alloc ck ikm) then err Err.alloc else do
  temp_key ← noise_hmac_blake2b_64 S ck ikm
  out1 ← noise_hmac_blake2b_64 S temp_key (0x01 ∷ [])
  out2 ← noise_hmac_blake2b_64 S temp_key (out1 ++ 0x02 ∷ [])
  ok (out1, out2)

-- The first output of hkdf_blake2b is written over `ck`, also the zeros of a failure.
abbrev pub keyed : SymmetricState → Result (Bytes × Bytes) → SymmetricState × Result (Unit {0})
keyed ss (err e) = (record ss { ck = zeros hash_len }, err e)
keyed ss (ok (out1, temp_k)) =
    (record ss { ck = out1; cs = cipher_init_key (take key_len temp_k) }, ok tt)

unfoldable pub symmetric_mix_key :
    Sodium → SymmetricState → Bytes → SymmetricState × Result (Unit {0})
symmetric_mix_key S ss ikm = keyed ss (hkdf_blake2b S ss.ck ikm)

abbrev hash_sent : Sodium → SymmetricState → Option Bytes → SymmetricState × Option Bytes
hash_sent S ss none = (ss, none)
hash_sent S ss (some ct) = (symmetric_mix_hash S ss ct, some ct)

unfoldable pub symmetric_encrypt_and_hash :
    Sodium → SymmetricState → Bytes → SymmetricState × Option Bytes
symmetric_encrypt_and_hash S ss plaintext =
    let (cs', r) = cipher_encrypt S ss.cs ss.h plaintext in hash_sent S (record ss { cs = cs' }) r

-- Whether the output fits a buffer of `out_cap` bytes.
unfoldable pub output_fits : Bool → ℕ → ℕ → Bool
output_fits has_key ct_len out_cap =
    if has_key
    then (if ltb ct_len mac_len then false else leb (ct_len - mac_len) out_cap)
    else leb ct_len out_cap

-- A failed authentication wipes the transcript hash.
abbrev hash_received :
    Sodium → SymmetricState → Bytes → Option Bytes → SymmetricState × Option Bytes
hash_received S ss ct none = (record ss { h = zeros hash_len }, none)
hash_received S ss ct (some pt) = (symmetric_mix_hash S ss ct, some pt)

unfoldable pub symmetric_decrypt_and_hash :
    Sodium → SymmetricState → Bytes → ℕ → SymmetricState × Option Bytes
symmetric_decrypt_and_hash S ss ciphertext out_cap =
    if not (output_fits ss.cs.has_key (length ciphertext) out_cap)
    then (ss, none)
    else let (cs', r) = cipher_decrypt S ss.cs ss.h ciphertext in
      hash_received S (record ss { cs = cs' }) ciphertext r

-- Two cipher states from the chaining key, which is destroyed with the rest of the state.
abbrev pub split_keys :
    SymmetricState → Result (Bytes × Bytes) → SymmetricState × Result (CipherState × CipherState)
split_keys ss (err e) = (ss, err e)
split_keys ss (ok (temp_k1, temp_k2)) = (
  record ss { ck = zeros hash_len; h = zeros hash_len; cs = cipher_init },
  ok (cipher_init_key (take key_len temp_k1), cipher_init_key (take key_len temp_k2)),
)

unfoldable pub symmetric_split :
    Sodium → SymmetricState → SymmetricState × Result (CipherState × CipherState)
symmetric_split S ss = split_keys ss (hkdf_blake2b S ss.ck [])

-- The shared secret of a scalar multiplication that did not fail must not be zero.
abbrev contributory : Option Bytes → Result Bytes
contributory none = err Err.crypto
contributory (some out) = if is_zero out then err Err.crypto else ok out

unfoldable pub noise_dh : Sodium → Bytes → Bytes → Result Bytes
noise_dh S priv peer_pub =
    if is_zero peer_pub then err Err.crypto else contributory (S.scalarmult priv peer_pub)
