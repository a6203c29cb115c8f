-- ===== src/Tests/Handshakes.antt =====
-- The theorems on src/noise.c, and on what src/stdin_handler.c sends, at concrete inputs.
use noxtor_cli.Prelude.{
  ◌<◌, ◌≡◌, ◌≢◌, ◌⊎◌, inl, refl, true, false, List, [], ◌∷◌, ◌++◌, none, some, arith,
}
use noxtor_cli.Common.{is_zero, Bytes, ok, zeros, uint64_max}
use noxtor_cli.Noise.Cipher.{
  CipherState, Session, cipher_init, cipher_init_key, encode_nonce, cipher_encrypt, cipher_decrypt,
}
use noxtor_cli.Noise.Symmetric.{
  output_fits, symmetric_init, symmetric_mix_hash, hmac_value, noise_hmac_blake2b_64, hkdf_blake2b,
  symmetric_mix_key, symmetric_encrypt_and_hash, symmetric_decrypt_and_hash, symmetric_split,
  noise_dh,
}
use noxtor_cli.Noise.Messages.{
  Handshake, write_msg0, write_msg1, write_msg2, read_msg0, read_msg1, read_msg2,
}
use noxtor_cli.Noise.Handshake.{
  handshake_init, fail, finish, writer, reader, handshake_write, handshake_read,
  handshake_is_complete, handshake_split,
}
use noxtor_cli.Noise.Agreement.Exchange.{exchange, exchange_ok, Party}
use noxtor_cli.Noise.Agreement.Messages.{Contributory}
use noxtor_cli.Noise.Nonces.{cipher_decrypt-nonce, nonces_distinct, encrypt_each}
use noxtor_cli.Noise.Transport.{stream_round_trip, send_all, receive_all}
use noxtor_cli.Noise.Lifecycle.{handshake_write-Outcome, handshake_read-Outcome}
use noxtor_cli.Noise.Lifecycle
use noxtor_cli.Noise.Traces.{
  split_once, secrets_wiped, Refused, Call, writes, reads, splits, after, after_call, messages,
  IsDead, NoSecrets,
}
use noxtor_cli.Tests.Toy.{under, toy, toy_laws, toy_alloc, session, other_end}

abbrev alice : Party
alice = record { static = 1 ∷ zeros 31; ephemeral = 2 ∷ zeros 31 }

abbrev bob : Party
bob = record { static = 3 ∷ zeros 31; ephemeral = 4 ∷ zeros 31 }

abbrev point : Bytes
point = 5 ∷ zeros 31

nonzero : (a b : Bytes) → Contributory toy a b
unfolding is_zero
nonzero a b = record {
  secret = 9 ∷ zeros 31;
  computed = refl;
  nonzero = refl;
  left_nonzero = refl;
  right_nonzero = refl;
}

exchange_ok_example :
    (c1 c2 : CipherState) × (exchange toy 352 256 alice bob (104 ∷ []) (105 ∷ 106 ∷ []) []
      ≡ ok (record {
        read0 = 104 ∷ [];
        read1 = 105 ∷ 106 ∷ [];
        read2 = [];
        initiator = record { tx = c1; rx = c2; remote_static = point };
        responder = record { tx = c2; rx = c1; remote_static = point };
      }))
exchange_ok_example =
    exchange_ok toy toy_laws toy_alloc alice bob (104 ∷ []) (105 ∷ 106 ∷ []) [] 352 256
      (nonzero bob.ephemeral alice.ephemeral) (nonzero bob.static alice.ephemeral)
      (nonzero alice.static bob.ephemeral) (omega arith) (omega arith) (omega arith) (omega arith)
      (omega arith) (omega arith) (omega arith) (omega arith) (omega arith)

stream_round_trip_example :
    (a' b' : Session) × (cs : List Bytes) × (send_all toy session ((104 ∷ 105 ∷ []) ∷ [] ∷ [])
      ≡ (a', some cs))
    × (receive_all toy other_end cs ≡ (b', some ((104 ∷ 105 ∷ []) ∷ [] ∷ [])))
    × (b'.rx ≡ a'.tx)
    × (a'.tx.n ≡ 2)
stream_round_trip_example =
    stream_round_trip toy toy_laws session other_end ((104 ∷ 105 ∷ []) ∷ [] ∷ []) refl refl
      (omega arith) (omega arith, (omega arith, tt))

abbrev keyed : CipherState
keyed = under 3

first_seal : (cipher_encrypt toy keyed [] (104 ∷ [])).1 ≡ some (zeros 16 ++ 104 ∷ [])
unfolding cipher_encrypt
first_seal = refl

third_seal :
    (cipher_encrypt toy
      (encrypt_each toy (cipher_encrypt toy keyed [] (104 ∷ [])).0 (([], 105 ∷ []) ∷ []))
      []
      (104 ∷ [])).1
    ≡ some (zeros 16 ++ 104 ∷ [])
unfolding cipher_encrypt encrypt_each
third_seal = refl

nonces_distinct_example :
    (toy.aead_encrypt keyed.k (encode_nonce keyed.n) [] (104 ∷ []) ≡ some (zeros 16 ++ 104 ∷ []))
    × (later : CipherState) × (later
        ≡ encrypt_each toy (cipher_encrypt toy keyed [] (104 ∷ [])).0 (([], 105 ∷ []) ∷ []))
    × (toy.aead_encrypt keyed.k (encode_nonce later.n) [] (104 ∷ []) ≡ some (zeros 16 ++ 104 ∷ []))
    × (encode_nonce keyed.n ≢ encode_nonce later.n)
nonces_distinct_example =
    nonces_distinct toy keyed [] (104 ∷ []) (zeros 16 ++ 104 ∷ []) [] (104 ∷ [])
      (zeros 16 ++ 104 ∷ []) (([], 105 ∷ []) ∷ []) refl (omega arith) first_seal third_seal

cipher_decrypt-nonce_example :
    (cipher_decrypt toy keyed [] (zeros 17) ≡ (keyed, none))
    ⊎ ((pt : Bytes) × (cipher_decrypt toy keyed [] (zeros 17) ≡ (record keyed { n = 1 }, some pt))
        × (toy.aead_decrypt keyed.k (encode_nonce 0) [] (zeros 17) ≡ some pt)
        × (0 < uint64_max))
cipher_decrypt-nonce_example = cipher_decrypt-nonce toy keyed [] (zeros 17) refl

abbrev fresh : Handshake
unfolding handshake_init symmetric_init symmetric_mix_hash cipher_init
fresh = handshake_init toy true (1 ∷ zeros 31) point

handshake_write-Outcome_example :
    Lifecycle.Outcome fresh (handshake_write toy fresh (2 ∷ zeros 31) [] 352)
handshake_write-Outcome_example = handshake_write-Outcome toy fresh (2 ∷ zeros 31) [] 352

handshake_read-Outcome_example : Lifecycle.Outcome fresh (handshake_read toy fresh (zeros 96) 256)
handshake_read-Outcome_example = handshake_read-Outcome toy fresh (zeros 96) 256

-- The three messages from the initiator's side.
abbrev dialogue : List Call
dialogue =
    writes (2 ∷ zeros 31) [] 352
    ∷ reads (point ++ zeros 16 ++ point ++ zeros 16) 256
    ∷ writes [] [] 352
    ∷ []

abbrev agreed : Session
agreed = record { tx = under 7; rx = under 7; remote_static = point }

dialogue_ok :
    (handshake_split toy (after toy (handshake_init toy true (1 ∷ zeros 31) point) dialogue)).1
    ≡ ok agreed
unfolding after after_call handshake_init handshake_write handshake_read handshake_split
    handshake_is_complete writer reader finish fail write_msg0 write_msg1 write_msg2 read_msg0
    read_msg1 read_msg2 symmetric_init symmetric_mix_hash symmetric_mix_key
    symmetric_encrypt_and_hash symmetric_decrypt_and_hash symmetric_split hkdf_blake2b
    noise_hmac_blake2b_64 hmac_value noise_dh cipher_init cipher_init_key cipher_encrypt
    cipher_decrypt encode_nonce is_zero output_fits
dialogue_ok = refl

split_once_example :
    (messages toy (handshake_init toy true (1 ∷ zeros 31) point) dialogue ≡ 3)
    × (hs : Handshake) × (hs
        ≡ (handshake_split toy
            (after toy (handshake_init toy true (1 ∷ zeros 31) point) dialogue)).0)
    × (after toy hs (splits ∷ []) ≡ hs)
    × Refused toy (after toy hs (splits ∷ [])) (writes [] [] 256)
split_once_example =
    split_once toy true (1 ∷ zeros 31) point dialogue (splits ∷ []) (writes [] [] 256) agreed
      dialogue_ok

early_split :
    IsDead (after toy (handshake_init toy false (1 ∷ zeros 31) point) (reads [] 256 ∷ splits ∷ []))
unfolding after after_call handshake_init handshake_write handshake_read handshake_split
    handshake_is_complete writer reader finish fail write_msg0 write_msg1 write_msg2 read_msg0
    read_msg1 read_msg2 symmetric_init symmetric_mix_hash symmetric_mix_key
    symmetric_encrypt_and_hash symmetric_decrypt_and_hash symmetric_split hkdf_blake2b
    noise_hmac_blake2b_64 hmac_value noise_dh cipher_init cipher_init_key cipher_encrypt
    cipher_decrypt encode_nonce is_zero IsDead
early_split = inl refl

secrets_wiped_example :
    NoSecrets
      (after toy (handshake_init toy false (1 ∷ zeros 31) point) (reads [] 256 ∷ splits ∷ []))
secrets_wiped_example =
    secrets_wiped toy false (1 ∷ zeros 31) point (reads [] 256 ∷ splits ∷ []) early_split
