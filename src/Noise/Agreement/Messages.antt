-- ===== src/Noise/Agreement/Messages.antt =====
-- One message of the XX pattern: what the writer puts on the wire, the reader at the other end
-- takes back, and both are left with one symmetric state.
use noxtor_cli.Prelude.{
  ℕ, ◌+◌, ◌≤◌, ◌<◌, ◌≡◌, refl, true, false, [], ◌∷◌, ◌++◌, some, arith, length, length-append, take,
  drop, leb, suc, zero, ap, ◌∙◌,
}
use noxtor_cli.Common.{
  Bytes, zeros, ok, key_len, mac_len, hash_len, max_msg_len, uint64_max, is_zero,
}
use noxtor_cli.Sodium.{Sodium, SodiumLaws}
use noxtor_cli.Noise.Symmetric.{SymmetricState, symmetric_mix_hash, noise_dh}
use noxtor_cli.Noise.Messages.{
  Handshake, write_msg0, write_msg1, write_msg2, read_msg0, read_msg1, read_msg2,
}
use noxtor_cli.Noise.Agreement.Primitives.{AllocOk, mix_key_ok, encrypt_ok}

le→leb : (a b : ℕ) → a ≤ b → leb a b ≡ true
le→leb a b h = ground arith

take_prefix : (n : ℕ) (xs ys : Bytes) → length xs ≡ n → take n (xs ++ ys) ≡ xs
take_prefix zero [] ys h = refl
take_prefix zero (x ∷ xs) ys h = absurd (omega arith)
take_prefix (suc n) [] ys h = absurd (omega arith)
take_prefix (suc n) (x ∷ xs) ys h = ap (◌∷◌ x) (take_prefix n xs ys (omega arith))

drop_prefix : (n : ℕ) (xs ys : Bytes) → length xs ≡ n → drop n (xs ++ ys) ≡ ys
drop_prefix zero [] ys h = refl
drop_prefix zero (x ∷ xs) ys h = absurd (omega arith)
drop_prefix (suc n) [] ys h = absurd (omega arith)
drop_prefix (suc n) (x ∷ xs) ys h = drop_prefix n xs ys (omega arith)

-- X25519 between two key pairs is not rejected.
pub record Contributory (S : Sodium) (a b : Bytes) : Type 0 where
  pub secret : Bytes
  pub computed : S.scalarmult a (S.public_of b) ≡ some secret
  pub nonzero : is_zero secret ≡ false
  pub left_nonzero : is_zero (S.public_of a) ≡ false
  pub right_nonzero : is_zero (S.public_of b) ≡ false

module _ (S : Sodium) (L : SodiumLaws S) (mem : AllocOk S) where
  pub dh_ok :
      (a b : Bytes) (c : Contributory S a b)
      → (noise_dh S a (S.public_of b) ≡ ok c.secret) × (noise_dh S b (S.public_of a) ≡ ok c.secret)
  unfolding noise_dh
  dh_ok a b c = (
    rw (c.right_nonzero, c.computed, c.nonzero) refl,
    rw (c.left_nonzero, ← L.scalarmult_comm a b, c.computed, c.nonzero) refl,
  )

  pub msg0_ok :
      (hw : Handshake) (eph payload : Bytes) (cap : ℕ)
      → key_len + length payload ≤ cap
      → length payload ≤ max_msg_len
      → hw.ss.cs.n ≡ 0
      → hw.ss.cs.has_key ≡ false
      → (ss' : SymmetricState) × (m : Bytes) × (write_msg0 S eph payload cap hw
          ≡ (record hw { ss = ss'; e = eph; e_pub = S.public_of eph }, ok m))
        × ((hr : Handshake) (rcap : ℕ)
            → hr.ss ≡ hw.ss
            → length payload ≤ rcap
            → read_msg0 S m rcap hr ≡ (record hr { ss = ss'; re = S.public_of eph }, ok payload))
        × (ss'.ck ≡ hw.ss.ck)
  unfolding write_msg0 read_msg0 symmetric_mix_hash
  msg0_ok hw eph payload cap fits small n k =
      let ss1 = symmetric_mix_hash S hw.ss (S.public_of eph) in
      let (ss', ct, enc, dec, l, ck, hk, bound) =
        encrypt_ok S L mem ss1 payload small (omega arith) in
      let pl = L.public_length eph in
      (
        ss',
        S.public_of eph ++ ct,
        rw (le→leb _ _ fits, enc) refl,
        (λ hr rcap same r.
            rw
              (
                le→leb key_len (length (S.public_of eph ++ ct))
                    (omega (arith, length-append (S.public_of eph) ct)),
                take_prefix key_len (S.public_of eph) ct pl,
                drop_prefix key_len (S.public_of eph) ct pl,
                same,
                dec rcap r,
              )
              refl),
        ck,
      )

  pub msg1_ok :
      (hw : Handshake) (eph payload z1 z2 : Bytes) (cap : ℕ)
      → key_len + key_len + mac_len + length payload + mac_len ≤ cap
      → length payload ≤ max_msg_len
      → length hw.ss.ck ≡ hash_len
      → length hw.s_pub ≡ key_len
      → noise_dh S eph hw.re ≡ ok z1
      → noise_dh S hw.s hw.re ≡ ok z2
      → (ss' : SymmetricState) × (m : Bytes) × (write_msg1 S eph payload cap hw
          ≡ (record hw { ss = ss'; e = eph; e_pub = S.public_of eph; s = zeros key_len }, ok m))
        × ((hr : Handshake) (rcap : ℕ)
            → hr.ss ≡ hw.ss
            → noise_dh S hr.e (S.public_of eph) ≡ ok z1
            → noise_dh S hr.e hw.s_pub ≡ ok z2
            → length payload ≤ rcap
            → read_msg1 S m rcap hr
              ≡ (record hr { ss = ss'; re = S.public_of eph; rs = hw.s_pub }, ok payload))
        × (length ss'.ck ≡ hash_len)
        × (ss'.cs.has_key ≡ true)
        × (ss'.cs.n ≤ 1)
  unfolding write_msg1 read_msg1 symmetric_mix_hash
  msg1_ok hw eph payload z1 z2 cap fits small ck sp dh1 dh2 =
      let e_pub = S.public_of eph in
      let ss1 = symmetric_mix_hash S hw.ss e_pub in
      let (ss2, mk2, v2) = mix_key_ok S L mem ss1 z1 ck in
      let (ss3, cts, enc3, dec3, l3, ck3, hk3, n3) =
        encrypt_ok S L mem ss2 hw.s_pub (omega arith) (omega (arith, v2.fresh)) in
      let (ss4, mk4, v4) = mix_key_ok S L mem ss3 z2 (ap length ck3 ∙ v2.ck_length) in
      let (ss5, ct, enc5, dec5, l5, ck5, hk5, n5) =
        encrypt_ok S L mem ss4 payload small (omega (arith, v4.fresh)) in
      let pl = L.public_length eph in
      let sl : length cts ≡ key_len + mac_len = ground (arith, v2.has_key, l3, sp) in
      (
        ss5,
        e_pub ++ (cts ++ ct),
        rw (le→leb _ _ fits, dh1, mk2, enc3, dh2, mk4, enc5) refl,
        (λ hr rcap same r1 r2 r.
            rw
              (
                le→leb (key_len + key_len + mac_len) (length (e_pub ++ (cts ++ ct)))
                    (omega (arith, length-append e_pub (cts ++ ct), length-append cts ct)),
                take_prefix key_len e_pub (cts ++ ct) pl,
                drop_prefix key_len e_pub (cts ++ ct) pl,
                take_prefix (key_len + mac_len) cts ct sl,
                drop_prefix (key_len + mac_len) cts ct sl,
                r1,
                same,
                mk2,
                dec3 key_len (omega arith),
                r2,
                mk4,
                dec5 rcap r,
              )
              refl),
        ap length ck5 ∙ v4.ck_length,
        hk5 ∙ v4.has_key,
        omega (arith, v4.fresh),
      )

  pub msg2_ok :
      (hw : Handshake) (payload z : Bytes) (cap : ℕ)
      → key_len + mac_len + length payload + mac_len ≤ cap
      → length payload ≤ max_msg_len
      → length hw.ss.ck ≡ hash_len
      → hw.ss.cs.has_key ≡ true
      → hw.ss.cs.n < uint64_max
      → length hw.s_pub ≡ key_len
      → noise_dh S hw.s hw.re ≡ ok z
      → (ss' : SymmetricState) × (m : Bytes) × (write_msg2 S payload cap hw
          ≡ (record hw { ss = ss'; s = zeros key_len }, ok m))
        × ((hr : Handshake) (rcap : ℕ)
            → hr.ss ≡ hw.ss
            → noise_dh S hr.e hw.s_pub ≡ ok z
            → length payload ≤ rcap
            → read_msg2 S m rcap hr ≡ (record hr { ss = ss'; rs = hw.s_pub }, ok payload))
        × (length ss'.ck ≡ hash_len)
  unfolding write_msg2 read_msg2
  msg2_ok hw payload z cap fits small ck hk n sp dh =
      let (ss1, cts, enc1, dec1, l1, ck1, hk1, bound) =
        encrypt_ok S L mem hw.ss hw.s_pub (omega arith) n in
      let (ss2, mk2, v2) = mix_key_ok S L mem ss1 z (ap length ck1 ∙ ck) in
      let (ss3, ct, enc3, dec3, l3, ck3, hk3, n3) =
        encrypt_ok S L mem ss2 payload small (omega (arith, v2.fresh)) in
      let sl : length cts ≡ key_len + mac_len = ground (arith, hk, l1, sp) in
      (
        ss3,
        cts ++ ct,
        rw (le→leb _ _ fits, enc1, dh, mk2, enc3) refl,
        (λ hr rcap same r2 r.
            rw
              (
                le→leb (key_len + mac_len) (length (cts ++ ct))
                    (omega (arith, length-append cts ct)),
                take_prefix (key_len + mac_len) cts ct sl,
                drop_prefix (key_len + mac_len) cts ct sl,
                same,
                dec1 key_len (omega arith),
                r2,
                mk2,
                dec3 rcap r,
              )
              refl),
        ap length ck3 ∙ v2.ck_length,
      )
