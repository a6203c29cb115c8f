-- ===== src/Noise/Transport.antt =====
-- src/noise.c, section 4: a stream of messages between the two sessions of a handshake.
use noxtor_cli.Prelude.{
  ◌+◌, ◌≤◌, ◌<◌, ◌≡◌, refl, true, List, [], ◌∷◌, Option, none, some, arith, length,
}
use noxtor_cli.Common.{Bytes, uint64_max, max_msg_len}
use noxtor_cli.Sodium.{Sodium, SodiumLaws}
use noxtor_cli.Noise.Cipher.{
  cipher_encrypt, cipher_decrypt, Session, noise_encrypt, noise_decrypt, encode_nonce,
}

-- Encrypts one message after the other; `none` if one is refused.
abbrev pub cons_sent : Option Bytes → Session × Option (List Bytes) → Session × Option (List Bytes)
cons_sent none (s, r) = (s, none)
cons_sent (some c) (s, none) = (s, none)
cons_sent (some c) (s, some cs) = (s, some (c ∷ cs))

unfoldable pub send_all : Sodium → Session → List Bytes → Session × Option (List Bytes)
send_all S s [] = (s, some [])
send_all S s (m ∷ ms) = let (s', c) = noise_encrypt S s m in cons_sent c (send_all S s' ms)

unfoldable pub receive_all : Sodium → Session → List Bytes → Session × Option (List Bytes)
receive_all S s [] = (s, some [])
receive_all S s (c ∷ cs) = let (s', m) = noise_decrypt S s c in cons_sent m (receive_all S s' cs)

abbrev pub AllShort : List Bytes → Type 0
AllShort [] = Unit {0}
AllShort (m ∷ ms) = (length m ≤ max_msg_len) × AllShort ms

module _ (S : Sodium) (L : SodiumLaws S) where
  pub one_message :
      (a b : Session) (m : Bytes)
      → b.rx ≡ a.tx
      → a.tx.has_key ≡ true
      → a.tx.n < uint64_max
      → length m ≤ max_msg_len
      → (c : Bytes) × (noise_encrypt S a m
          ≡ (record a { tx = record a.tx { n = a.tx.n + 1 } }, some c))
        × (noise_decrypt S b c ≡ (record b { rx = record a.tx { n = a.tx.n + 1 } }, some m))
  unfolding noise_encrypt noise_decrypt cipher_encrypt cipher_decrypt
  one_message a b m same k n h =
      let (c, e) = L.encrypt_total a.tx.k (encode_nonce a.tx.n) [] m in
      let l = L.encrypt_length a.tx.k (encode_nonce a.tx.n) [] m c e in
      let d = L.decrypt_encrypt a.tx.k (encode_nonce a.tx.n) [] m c e in
      (c, ground arith, simp same (ground arith))

  -- Where the receiving state of one end is the sending state of the other, under a key:
  -- messages of at most 4096 bytes that one end encrypts, as many as its counter has nonces
  -- for, the other end decrypts in their order, and the two states stay equal.
  pub stream_round_trip :
      (a b : Session) (ms : List Bytes)
      → b.rx ≡ a.tx
      → a.tx.has_key ≡ true
      → a.tx.n + length ms ≤ uint64_max
      → AllShort ms
      → (a' b' : Session) × (cs : List Bytes) × (send_all S a ms ≡ (a', some cs))
        × (receive_all S b cs ≡ (b', some ms))
        × (b'.rx ≡ a'.tx)
        × (a'.tx.n ≡ a.tx.n + length ms)
  unfolding send_all receive_all
  stream_round_trip a b [] same k n h = (a, b, [], refl, refl, same, omega arith)
  stream_round_trip a b (m ∷ ms) same k n (hm, hs) =
      let (c, e, d) = one_message a b m same k (omega arith) hm in
      let tx' = record a.tx { n = a.tx.n + 1 } in
      let (a', b', cs, es, ds, same', n') =
        stream_round_trip (record a { tx = tx' }) (record b { rx = tx' }) ms refl k (omega arith)
          hs in
      (a', b', c ∷ cs, rw (e, es) refl, rw (d, ds) refl, same', omega arith)
