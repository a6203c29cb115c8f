-- ===== src/Noise/Messages.antt =====
-- src/noise.c, section 3: the handshake state and the three messages of the XX pattern, each as
-- its writer and its reader. A writer or reader changes the state step by step and may stop with
-- an error half way, so both are state passing functions that keep the state of a failure.
use noxtor_cli.Prelude.{
  ℕ, ◌+◌, Bool, true, false, ◌++◌, Option, none, some, leb, length, take, drop,
}
use noxtor_cli.Common.{Bytes, Err, Result, ok, err, key_len, mac_len, zeros}
use noxtor_cli.Sodium.{Sodium}
use noxtor_cli.Noise.Symmetric.{
  SymmetricState, symmetric_mix_hash, symmetric_mix_key, symmetric_encrypt_and_hash,
  symmetric_decrypt_and_hash, noise_dh,
}

-- struct noise_handshake
pub record Handshake : Type 0 where
  pub ss : SymmetricState
  pub s : Bytes
  pub s_pub : Bytes
  pub e : Bytes
  pub e_pub : Bytes
  pub rs : Bytes
  pub re : Bytes
  pub initiator : Bool
  pub msg_index : ℕ
  pub split_done : Bool
  pub failed : Bool

abbrev pub M : Type 0 → Type 0
M A = Handshake → Handshake × Result A

-- An error ends the message where it stands, with the state reached so far.
abbrev pub continue : {A B : Type 0} → (A → M B) → Handshake × Result A → Handshake × Result B
continue f (hs, ok a) = f a hs
continue f (hs, err e) = (hs, err e)

infixl 5 ◌>>=◌ ◌>>◌
abbrev pub ◌>>=◌ : {A B : Type 0} → M A → (A → M B) → M B
◌>>=◌ m f hs = continue f (m hs)

abbrev pub ◌>>◌ : {B : Type 0} → M (Unit {0}) → M B → M B
m >> k = m >>= λ _. k

abbrev pub return : {A : Type 0} → A → M A
return a hs = (hs, ok a)

abbrev pub gets : {A : Type 0} → (Handshake → A) → M A
gets f hs = (hs, ok (f hs))

abbrev pub guard : Bool → Err → M (Unit {0})
guard true e hs = (hs, ok tt)
guard false e hs = (hs, err e)

-- A result of the symmetric state, `none` standing for the given error.
abbrev pub or_fail : {A : Type 0} → Err → Option A → Result A
or_fail e none = err e
or_fail e (some a) = ok a

-- crypto_box_curve25519xsalsa20poly1305_keypair: `eph` is the private key that it draws.
abbrev pub generate : Sodium → Bytes → M (Unit {0})
generate S eph hs = (record hs { e = eph; e_pub = S.public_of eph }, ok tt)

abbrev pub mix_hash : Sodium → Bytes → M (Unit {0})
mix_hash S bytes hs = (record hs { ss = symmetric_mix_hash S hs.ss bytes }, ok tt)

abbrev pub mix_key : Sodium → Bytes → M (Unit {0})
mix_key S ikm hs = let (ss', r) = symmetric_mix_key S hs.ss ikm in (record hs { ss = ss' }, r)

-- noise_dh and MixKey of its output; the source answers NOX_ERR_CRYPTO where noise_dh fails,
-- which is its only error.
abbrev pub mix_dh : Sodium → (Handshake → Bytes) → (Handshake → Bytes) → M (Unit {0})
mix_dh S priv peer = do dh_out ← λ hs. (hs, noise_dh S (priv hs) (peer hs)); mix_key S dh_out

abbrev pub encrypt_and_hash : Sodium → Bytes → M Bytes
encrypt_and_hash S pt hs =
    let (ss', r) = symmetric_encrypt_and_hash S hs.ss pt in
    (record hs { ss = ss' }, or_fail Err.crypto r)

abbrev pub decrypt_and_hash : Sodium → Bytes → ℕ → M Bytes
decrypt_and_hash S ct out_cap hs =
    let (ss', r) = symmetric_decrypt_and_hash S hs.ss ct out_cap in
    (record hs { ss = ss' }, or_fail Err.auth r)

abbrev pub set_re : Bytes → M (Unit {0})
set_re bytes hs = (record hs { re = bytes }, ok tt)

abbrev pub set_rs : Bytes → M (Unit {0})
set_rs bytes hs = (record hs { rs = bytes }, ok tt)

abbrev pub wipe_s : M (Unit {0})
wipe_s hs = (record hs { s = zeros key_len }, ok tt)

abbrev pub wipe_e : M (Unit {0})
wipe_e hs = (record hs { e = zeros key_len }, ok tt)

-- → e
unfoldable pub write_msg0 : Sodium → Bytes → Bytes → ℕ → M Bytes
write_msg0 S eph payload out_cap = do
  guard (leb (key_len + length payload) out_cap) Err.proto
  generate S eph
  mix_hash S (S.public_of eph)
  ct ← encrypt_and_hash S payload
  return (S.public_of eph ++ ct)

-- ← e, ee, s, es
unfoldable pub write_msg1 : Sodium → Bytes → Bytes → ℕ → M Bytes
write_msg1 S eph payload out_cap = do
  guard (leb (key_len + key_len + mac_len + length payload + mac_len) out_cap) Err.proto
  generate S eph
  mix_hash S (S.public_of eph)
  mix_dh S (λ hs. hs.e) (λ hs. hs.re)
  s_pub ← gets λ hs. hs.s_pub
  ct_s ← encrypt_and_hash S s_pub
  mix_dh S (λ hs. hs.s) (λ hs. hs.re)
  ct ← encrypt_and_hash S payload
  wipe_s
  return (S.public_of eph ++ (ct_s ++ ct))

-- → s, se
unfoldable pub write_msg2 : Sodium → Bytes → ℕ → M Bytes
write_msg2 S payload out_cap = do
  guard (leb (key_len + mac_len + length payload + mac_len) out_cap) Err.proto
  s_pub ← gets λ hs. hs.s_pub
  ct_s ← encrypt_and_hash S s_pub
  mix_dh S (λ hs. hs.s) (λ hs. hs.re)
  ct ← encrypt_and_hash S payload
  wipe_s
  return (ct_s ++ ct)

-- → e
unfoldable pub read_msg0 : Sodium → Bytes → ℕ → M Bytes
read_msg0 S msg out_cap = do
  guard (leb key_len (length msg)) Err.proto
  set_re (take key_len msg)
  mix_hash S (take key_len msg)
  decrypt_and_hash S (drop key_len msg) out_cap

-- ← e, ee, s, es
unfoldable pub read_msg1 : Sodium → Bytes → ℕ → M Bytes
read_msg1 S msg out_cap = do
  guard (leb (key_len + key_len + mac_len) (length msg)) Err.proto
  set_re (take key_len msg)
  mix_hash S (take key_len msg)
  mix_dh S (λ hs. hs.e) (λ hs. hs.re)
  rs ← decrypt_and_hash S (take (key_len + mac_len) (drop key_len msg)) key_len
  set_rs rs
  mix_dh S (λ hs. hs.e) (λ hs. hs.rs)
  decrypt_and_hash S (drop (key_len + mac_len) (drop key_len msg)) out_cap

-- → s, se
unfoldable pub read_msg2 : Sodium → Bytes → ℕ → M Bytes
read_msg2 S msg out_cap = do
  guard (leb (key_len + mac_len) (length msg)) Err.proto
  rs ← decrypt_and_hash S (take (key_len + mac_len) msg) key_len
  set_rs rs
  mix_dh S (λ hs. hs.e) (λ hs. hs.rs)
  decrypt_and_hash S (drop (key_len + mac_len) msg) out_cap
