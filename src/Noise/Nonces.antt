-- ===== src/Noise/Nonces.antt =====
-- The nonce counter of a cipher state (src/noise.c, section 1).
use noxtor_cli.Prelude.{
  ℕ, ◌+◌, ◌≤◌, ◌<◌, ◌≡◌, ◌≢◌, refl, ap, ◌∙◌, ◌*◌, true, List, [], ◌∷◌, none, some, arith, length,
  ◌⊎◌, inl, inr, Option-cases,
}
use noxtor_cli.Common.{Bytes, uint64_max, max_msg_len}
use noxtor_cli.Sodium.{Sodium}
use noxtor_cli.Noise.Cipher.{CipherState, cipher_encrypt, cipher_decrypt, encode_nonce}

-- The number that a nonce stands for.
decode_nonce : Bytes → ℕ
decode_nonce (_ ∷ _ ∷ _ ∷ _ ∷ a ∷ b ∷ c ∷ d ∷ e ∷ f ∷ g ∷ h ∷ []) =
    a
    + 256 * b
    + 65536 * c
    + 16777216 * d
    + 4294967296 * e
    + 1099511627776 * f
    + 281474976710656 * g
    + 72057594037927936 * h
decode_nonce _ = 0

decode-encode_nonce : (n : ℕ) → n ≤ uint64_max → decode_nonce (encode_nonce n) ≡ n
unfolding decode_nonce encode_nonce
decode-encode_nonce n h = omega arith

encode_nonce_injective :
    (m n : ℕ) → m ≤ uint64_max → n ≤ uint64_max → encode_nonce m ≡ encode_nonce n → m ≡ n
encode_nonce_injective m n hm hn e =
    omega (arith, decode-encode_nonce m hm, decode-encode_nonce n hn, ap decode_nonce e)

-- One encryption under a key takes the counter's value as its nonce, never UINT64_MAX, and
-- moves the counter on by one; at UINT64_MAX it fails and the counter stays there.
pub cipher_encrypt-nonce :
    (S : Sodium) (cs : CipherState) (ad pt : Bytes)
    → cs.has_key ≡ true
    → cs.n ≤ uint64_max
    → length pt ≤ max_msg_len
    → ((cs.n ≡ uint64_max) × (cipher_encrypt S cs ad pt ≡ (cs, none)))
      ⊎ ((cs.n < uint64_max)
          × (cipher_encrypt S cs ad pt
              ≡ (record cs { n = cs.n + 1 }, S.aead_encrypt cs.k (encode_nonce cs.n) ad pt)))
unfolding cipher_encrypt
cipher_encrypt-nonce S cs ad pt k n h = ground arith

-- Under a key, a ciphertext is either refused, and then the receiving state stays as it was; or
-- it is accepted, and then it was sealed for the counter's value, which is below UINT64_MAX, and
-- the counter moves on by exactly one.
pub cipher_decrypt-nonce :
    (S : Sodium) (cs : CipherState) (ad ct : Bytes)
    → cs.has_key ≡ true
    → (cipher_decrypt S cs ad ct ≡ (cs, none))
      ⊎ ((pt : Bytes) × (cipher_decrypt S cs ad ct ≡ (record cs { n = cs.n + 1 }, some pt))
          × (S.aead_decrypt cs.k (encode_nonce cs.n) ad ct ≡ some pt)
          × (cs.n < uint64_max))
unfolding cipher_decrypt
cipher_decrypt-nonce S cs ad ct k =
    elim (Option-cases (S.aead_decrypt cs.k (encode_nonce cs.n) ad ct)) [
      | inl bad ↦ inl (ground arith)
      | inr (pt, good) ↦ ground arith
    ]

-- The state after a sequence of encryptions, each an associated data and a plaintext.
unfoldable pub encrypt_each : Sodium → CipherState → List (Bytes × Bytes) → CipherState
encrypt_each S cs [] = cs
encrypt_each S cs ((ad, pt) ∷ calls) = encrypt_each S (cipher_encrypt S cs ad pt).0 calls

-- What a later state of the same key may be.
record Later (cs cs' : CipherState) : Type 0 where
  key : cs'.k ≡ cs.k
  has_key : cs'.has_key ≡ cs.has_key
  grown : cs.n ≤ cs'.n
  bounded : cs'.n ≤ uint64_max

encrypt-Later :
    (S : Sodium) (cs : CipherState) (ad pt : Bytes)
    → cs.n ≤ uint64_max
    → Later cs (cipher_encrypt S cs ad pt).0
unfolding cipher_encrypt
encrypt-Later S cs ad pt h = ground arith

encrypt_each-Later :
    (S : Sodium) (cs : CipherState) (calls : List (Bytes × Bytes))
    → cs.n ≤ uint64_max
    → Later cs (encrypt_each S cs calls)
unfolding encrypt_each
encrypt_each-Later S cs [] h = record {
  key = refl;
  has_key = refl;
  grown = omega arith;
  bounded = h;
}
encrypt_each-Later S cs ((ad, pt) ∷ calls) h =
    let l = encrypt-Later S cs ad pt h in
    let r = encrypt_each-Later S (cipher_encrypt S cs ad pt).0 calls l.bounded in
    record {
      key = r.key ∙ l.key;
      has_key = r.has_key ∙ l.has_key;
      grown = omega arith;
      bounded = r.bounded;
    }

seal_inv :
    (S : Sodium) (cs : CipherState) (ad pt c : Bytes)
    → cs.has_key ≡ true
    → (cipher_encrypt S cs ad pt).1 ≡ some c
    → (cs.n < uint64_max)
      × ((cipher_encrypt S cs ad pt).0 ≡ record cs { n = cs.n + 1 })
      × (S.aead_encrypt cs.k (encode_nonce cs.n) ad pt ≡ some c)
unfolding cipher_encrypt
seal_inv S cs ad pt c k e = ground arith

-- Under a key, if two encryptions from one cipher state both give a ciphertext, with any
-- encryptions between them, libsodium was called with the same key and two different nonces.
pub nonces_distinct :
    (S : Sodium) (cs : CipherState) (ad1 pt1 c1 ad2 pt2 c2 : Bytes) (calls : List (Bytes × Bytes))
    → cs.has_key ≡ true
    → cs.n ≤ uint64_max
    → (cipher_encrypt S cs ad1 pt1).1 ≡ some c1
    → (cipher_encrypt S (encrypt_each S (cipher_encrypt S cs ad1 pt1).0 calls) ad2 pt2).1 ≡ some c2
    → (S.aead_encrypt cs.k (encode_nonce cs.n) ad1 pt1 ≡ some c1)
      × (later : CipherState) × (later ≡ encrypt_each S (cipher_encrypt S cs ad1 pt1).0 calls)
      × (S.aead_encrypt cs.k (encode_nonce later.n) ad2 pt2 ≡ some c2)
      × (encode_nonce cs.n ≢ encode_nonce later.n)
nonces_distinct S cs ad1 pt1 c1 ad2 pt2 c2 calls k h e1 e2 =
    let (lt1, st1, a1) = seal_inv S cs ad1 pt1 c1 k e1 in
    let l1 = encrypt-Later S cs ad1 pt1 h in
    let l2 = encrypt_each-Later S (cipher_encrypt S cs ad1 pt1).0 calls l1.bounded in
    let later = encrypt_each S (cipher_encrypt S cs ad1 pt1).0 calls in
    let (lt2, st2, a2) = seal_inv S later ad2 pt2 c2 (l2.has_key ∙ l1.has_key ∙ k) e2 in
    (
      a1,
      later,
      refl,
      rw (l2.key ∙ l1.key) at a2,
      λ same.
          let n1 : (cipher_encrypt S cs ad1 pt1).0.n ≡ cs.n + 1 =
            ap (λ (c : CipherState). c.n) st1 in
          absurd
            (omega (arith, encode_nonce_injective cs.n later.n h (omega arith) same, l2.grown)),
    )
