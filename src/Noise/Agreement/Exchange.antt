-- ===== src/Noise/Agreement/Exchange.antt =====
-- A whole XX handshake between two ends, as src/event_loop.c and src/stdin_handler.c drive it:
-- three messages, each written at one end and read at the other, and a split at both ends.
use noxtor_cli.Prelude.{ℕ, ◌+◌, ◌≤◌, ◌≡◌, refl, true, false, [], some, take, arith, length, ltb}
use noxtor_cli.Common.{Bytes, zeros, Result, ok, err, key_len, hash_len, max_handshake_len}
use noxtor_cli.Sodium.{Sodium, SodiumLaws}
use noxtor_cli.Noise.Cipher.{CipherState, Session, cipher_init, cipher_init_key}
use noxtor_cli.Noise.Symmetric.{symmetric_split, symmetric_init, symmetric_mix_hash, SymmetricState}
use noxtor_cli.Noise.Messages.{Handshake, M}
use noxtor_cli.Noise.Handshake.{
  handshake_init, handshake_write, handshake_read, handshake_split, handshake_is_complete, writer,
  reader, finish,
}
use noxtor_cli.Noise.Agreement.Primitives.{AllocOk, hkdf_ok}
use noxtor_cli.Noise.Agreement.Messages.{Contributory, dh_ok, msg0_ok, msg1_ok, msg2_ok}

-- The next action, where the one before succeeded.
infixl 5 ◌then◌
abbrev ◌then◌ : {A B : Type 0} → Handshake × Result A → (Handshake → A → Result B) → Result B
(hs, ok a) then f = f hs a
(hs, err e) then f = err e

-- The private keys of the two ends, and the payloads of the three messages.
pub record Party : Type 0 where
  pub static : Bytes
  pub ephemeral : Bytes

pub record Outcome : Type 0 where
  pub read0 : Bytes
  pub read1 : Bytes
  pub read2 : Bytes
  pub initiator : Session
  pub responder : Session

unfoldable pub exchange : Sodium → ℕ → ℕ → Party → Party → Bytes → Bytes → Bytes → Result Outcome
exchange S wcap rcap i r p0 p1 p2 =
    handshake_write S (handshake_init S true i.static (S.public_of i.static)) i.ephemeral p0 wcap
    then λ i1 m0.
        handshake_read S (handshake_init S false r.static (S.public_of r.static)) m0 rcap
        then λ r1 q0. handshake_write S r1 r.ephemeral p1 wcap then λ r2 m1.
            handshake_read S i1 m1 rcap then λ i2 q1. handshake_write S i2 [] p2 wcap then λ i3 m2.
            handshake_read S r2 m2 rcap then λ r3 q2. handshake_split S i3 then λ i4 si.
            handshake_split S r3 then λ r4 sr.
            ok (record { read0 = q0; read1 = q1; read2 = q2; initiator = si; responder = sr })

module _ (S : Sodium) where
  write_ok :
      (hs hs' : Handshake) (eph payload b : Bytes) (room : ℕ) (m : M Bytes)
      → hs.split_done ≡ false
      → hs.failed ≡ false
      → length payload ≤ max_handshake_len
      → writer S eph payload room hs.initiator hs.msg_index ≡ some m
      → m hs ≡ (hs', ok b)
      → handshake_write S hs eph payload room ≡ (record hs' { msg_index = hs'.msg_index + 1 }, ok b)
  unfolding handshake_write finish
  write_ok hs hs' eph payload b room m live sound small w e =
      let f : ltb max_handshake_len (length payload) ≡ false = ground arith in
      simp (live, sound, f, w, e)

  read_ok :
      (hs hs' : Handshake) (msg b : Bytes) (room : ℕ) (m : M Bytes)
      → hs.split_done ≡ false
      → hs.failed ≡ false
      → reader S msg room hs.initiator hs.msg_index ≡ some m
      → m hs ≡ (hs', ok b)
      → handshake_read S hs msg room ≡ (record hs' { msg_index = hs'.msg_index + 1 }, ok b)
  unfolding handshake_read finish
  read_ok hs hs' msg b room m live sound w e = simp (live, sound, w, e)

  split_ok :
      SodiumLaws S
      → AllocOk S
      → (ss : SymmetricState) → length ss.ck ≡ hash_len
      → (ss' : SymmetricState) × (c1 c2 : CipherState) × (symmetric_split S ss ≡ (ss', ok (c1, c2)))
  unfolding symmetric_split
  split_ok L mem ss h =
      let (o1, o2, e, l) = hkdf_ok S L mem ss.ck [] h in
      (
        record ss { ck = zeros hash_len; h = zeros hash_len; cs = cipher_init },
        cipher_init_key (take key_len o1),
        cipher_init_key (take key_len o2),
        rw e refl,
      )

  -- Where libsodium works, memory is not exhausted, the three shared secrets and the public
  -- keys are not zero, the payloads have 256 bytes at most and the buffers hold the messages,
  -- two new ends complete the XX handshake: the three payloads arrive as sent, what one end
  -- encrypts with is what the other decrypts with, and each end holds the other's static public
  -- key.
  pub exchange_ok :
      SodiumLaws S
      → AllocOk S
      → (i r : Party) (p0 p1 p2 : Bytes) (wcap rcap : ℕ) → Contributory S r.ephemeral i.ephemeral
      → Contributory S r.static i.ephemeral
      → Contributory S i.static r.ephemeral
      → length p0 + 96 ≤ wcap
      → length p1 + 96 ≤ wcap
      → length p2 + 96 ≤ wcap
      → length p0 ≤ max_handshake_len
      → length p1 ≤ max_handshake_len
      → length p2 ≤ max_handshake_len
      → length p0 ≤ rcap
      → length p1 ≤ rcap
      → length p2 ≤ rcap
      → (c1 c2 : CipherState) × (exchange S wcap rcap i r p0 p1 p2
          ≡ ok (record {
            read0 = p0;
            read1 = p1;
            read2 = p2;
            initiator = record { tx = c1; rx = c2; remote_static = S.public_of r.static };
            responder = record { tx = c2; rx = c1; remote_static = S.public_of i.static };
          }))
  unfolding exchange handshake_init symmetric_init symmetric_mix_hash cipher_init writer reader
      handshake_split handshake_is_complete
  exchange_ok L mem i r p0 p1 p2 wcap rcap ee es se w0 w1 w2 h0 h1 h2 r0 r1 r2 =
      let (ee1, ee2) = dh_ok S L mem r.ephemeral i.ephemeral ee in
      let (es1, es2) = dh_ok S L mem r.static i.ephemeral es in
      let (se1, se2) = dh_ok S L mem i.static r.ephemeral se in
      let ia = handshake_init S true i.static (S.public_of i.static) in
      let ra = handshake_init S false r.static (S.public_of r.static) in
      let (s1, m0, wr0, rd0, ck1) =
        msg0_ok S L mem ia i.ephemeral p0 wcap (omega arith) (omega arith) refl refl in
      let ib = record ia {
        ss = s1;
        e = i.ephemeral;
        e_pub = S.public_of i.ephemeral;
        msg_index = 1;
      } in
      let rb = record ra { ss = s1; re = S.public_of i.ephemeral; msg_index = 1 } in
      let (s2, m1, wr1, rd1, ck2, hk2, n2) =
        msg1_ok S L mem rb r.ephemeral p1 ee.secret es.secret wcap (omega arith) (omega arith)
          (rw ck1 refl) (L.public_length r.static) ee1 es1 in
      let rc = record rb {
        ss = s2;
        e = r.ephemeral;
        e_pub = S.public_of r.ephemeral;
        s = zeros key_len;
        msg_index = 2;
      } in
      let ic = record ib {
        ss = s2;
        re = S.public_of r.ephemeral;
        rs = S.public_of r.static;
        e = zeros key_len;
        msg_index = 2;
      } in
      let (s3, m2, wr2, rd2, ck3) =
        msg2_ok S L mem ic p2 se.secret wcap (omega arith) (omega arith) ck2 hk2 (omega arith)
          (L.public_length i.static) se1 in
      let (s4, c1, c2, sp) = split_ok L mem s3 ck3 in
      (
        c1,
        c2,
        rw
            (
              write_ok ia _ i.ephemeral p0 m0 wcap _ refl refl h0 refl wr0,
              read_ok ra _ m0 p0 rcap _ refl refl refl (rd0 ra rcap refl r0),
              write_ok rb _ r.ephemeral p1 m1 wcap _ refl refl h1 refl wr1,
              read_ok ib (record ic { msg_index = 1 }) m1 p1 rcap _ refl refl refl
                  (rw (rd1 ib rcap refl ee2 es2 r1) refl),
              write_ok ic _ [] p2 m2 wcap _ refl refl h2 refl wr2,
              read_ok rc (record rc { ss = s3; rs = S.public_of i.static; e = zeros key_len }) m2 p2
                  rcap _ refl refl refl (rw (rd2 rc rcap refl se2 r2) refl),
              sp,
            )
            refl,
      )
