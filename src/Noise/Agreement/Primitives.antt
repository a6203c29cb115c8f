-- ===== src/Noise/Agreement/Primitives.antt =====
-- What the steps of a handshake do where libsodium works and memory is not exhausted.
use noxtor_cli.Prelude.{
  ℕ, ◌+◌, ◌≤◌, ◌<◌, ◌≡◌, refl, true, false, [], ◌∷◌, ◌++◌, some, arith, length, take, ◌%◌, inl, inr,
  Bool-cases, if◌then◌else◌,
}
use noxtor_cli.Common.{Bytes, ok, key_len, u64_mod, mac_len, hash_len, max_msg_len, uint64_max}
use noxtor_cli.Sodium.{Sodium, SodiumLaws}
use noxtor_cli.Noise.Cipher.{
  CipherState, cipher_encrypt, cipher_decrypt, cipher_init_key, encode_nonce,
}
use noxtor_cli.Noise.Symmetric.{
  SymmetricState, hmac_value, noise_hmac_blake2b_64, hkdf_blake2b, symmetric_mix_key,
  symmetric_mix_hash, symmetric_encrypt_and_hash, symmetric_decrypt_and_hash, output_fits,
}

-- sodium_malloc never fails.
pub record AllocOk (S : Sodium) : Type 0 where
  pub hmac : (k m : Bytes) → S.hmac_alloc k m ≡ true
  pub hkdf : (k m : Bytes) → S.hkdf_alloc k m ≡ true

-- A symmetric state after MixKey.
pub record IsKeyed (ss : SymmetricState) : Type 0 where
  pub ck_length : length ss.ck ≡ hash_len
  pub has_key : ss.cs.has_key ≡ true
  pub fresh : ss.cs.n ≡ 0

module _ (S : Sodium) (L : SodiumLaws S) (mem : AllocOk S) where
  hmac_ok :
      (key bytes : Bytes)
      → length key ≤ 128
      → (noise_hmac_blake2b_64 S key bytes ≡ ok (hmac_value S key bytes))
        × (length (hmac_value S key bytes) ≡ hash_len)
  unfolding noise_hmac_blake2b_64 hmac_value
  hmac_ok key bytes h = (ground (arith, mem.hmac key bytes), L.blake2b_length _)

  pub hkdf_ok :
      (ck ikm : Bytes)
      → length ck ≡ hash_len
      → (out1 out2 : Bytes) × (hkdf_blake2b S ck ikm ≡ ok (out1, out2)) × (length out1 ≡ hash_len)
  unfolding hkdf_blake2b
  hkdf_ok ck ikm h =
      let temp = hmac_value S ck ikm in
      let o1 = hmac_value S temp (0x01 ∷ []) in
      let o2 = hmac_value S temp (o1 ++ 0x02 ∷ []) in
      let (e, l) = hmac_ok ck ikm (omega arith) in
      let (e1, l1) = hmac_ok temp (0x01 ∷ []) (omega arith) in
      let (e2, l2) = hmac_ok temp (o1 ++ 0x02 ∷ []) (omega arith) in
      (o1, o2, rw (mem.hkdf ck ikm, e, e1, e2) refl, l1)

  pub mix_key_ok :
      (ss : SymmetricState) (ikm : Bytes)
      → length ss.ck ≡ hash_len
      → (ss' : SymmetricState) × (symmetric_mix_key S ss ikm ≡ (ss', ok tt)) × IsKeyed ss'
  unfolding symmetric_mix_key cipher_init_key
  mix_key_ok ss ikm h =
      let (o1, o2, e, l) = hkdf_ok ss.ck ikm h in
      (
        record ss { ck = o1; cs = cipher_init_key (take key_len o2) },
        rw e refl,
        record { ck_length = l; has_key = refl; fresh = refl },
      )

  -- A pass through the cipher, with no key yet.
  plain_ok :
      (cs : CipherState) (ad pt : Bytes)
      → cs.has_key ≡ false
      → length pt ≤ max_msg_len
      → (cipher_encrypt S cs ad pt ≡ (cs, some pt)) × (cipher_decrypt S cs ad pt ≡ (cs, some pt))
  unfolding cipher_encrypt cipher_decrypt
  plain_ok cs ad pt k h = (ground arith, ground arith)

  sealed_ok :
      (cs : CipherState) (ad pt ct : Bytes)
      → S.aead_encrypt cs.k (encode_nonce cs.n) ad pt ≡ some ct
      → cs.has_key ≡ true
      → length pt ≤ max_msg_len
      → cs.n < uint64_max
      → let cs' = record cs { n = (cs.n + 1) % u64_mod } in
        (cipher_encrypt S cs ad pt ≡ (cs', some ct)) × (cipher_decrypt S cs ad ct ≡ (cs', some pt))
  unfolding cipher_encrypt cipher_decrypt
  sealed_ok cs ad pt ct e k h n = (
    ground arith,
    ground (
      arith,
      L.decrypt_encrypt cs.k (encode_nonce cs.n) ad pt ct e,
      L.encrypt_length cs.k (encode_nonce cs.n) ad pt ct e,
    ),
  )

  -- What encryption gives, decryption from the same state takes back, to the same state.
  pub cipher_ok :
      (cs : CipherState) (ad pt : Bytes)
      → length pt ≤ max_msg_len
      → cs.n < uint64_max
      → (cs' : CipherState) × (ct : Bytes) × (cipher_encrypt S cs ad pt ≡ (cs', some ct))
        × (cipher_decrypt S cs ad ct ≡ (cs', some pt))
        × (length ct ≡ (if cs.has_key then length pt + mac_len else length pt))
        × (cs'.has_key ≡ cs.has_key)
        × (cs'.n ≤ cs.n + 1)
  cipher_ok cs ad pt h n = elim (Bool-cases cs.has_key) [
    | inl k ↦
        let (ct, e) = L.encrypt_total cs.k (encode_nonce cs.n) ad pt in
        let (p, q) = sealed_ok cs ad pt ct e k h n in
        (
          record cs { n = (cs.n + 1) % u64_mod },
          ct,
          p,
          q,
          rw k (L.encrypt_length cs.k (encode_nonce cs.n) ad pt ct e),
          refl,
          omega arith,
        )
    | inr k ↦ let (p, q) = plain_ok cs ad pt k h in (cs, pt, p, q, rw k refl, refl, omega arith)
  ]

  pub encrypt_ok :
      (ss : SymmetricState) (pt : Bytes)
      → length pt ≤ max_msg_len
      → ss.cs.n < uint64_max
      → (ss' : SymmetricState) × (ct : Bytes) × (symmetric_encrypt_and_hash S ss pt
          ≡ (ss', some ct))
        × ((cap : ℕ) → length pt ≤ cap → symmetric_decrypt_and_hash S ss ct cap ≡ (ss', some pt))
        × (length ct ≡ (if ss.cs.has_key then length pt + mac_len else length pt))
        × (ss'.ck ≡ ss.ck)
        × (ss'.cs.has_key ≡ ss.cs.has_key)
        × (ss'.cs.n ≤ ss.cs.n + 1)
  unfolding symmetric_encrypt_and_hash symmetric_decrypt_and_hash output_fits symmetric_mix_hash
  encrypt_ok ss pt h n =
      let (cs', ct, e, d, l, k, c) = cipher_ok ss.cs ss.h pt h n in
      (
        symmetric_mix_hash S (record ss { cs = cs' }) ct,
        ct,
        rw e refl,
        (λ cap fits. ground (arith, d, l)),
        l,
        refl,
        k,
        c,
      )
