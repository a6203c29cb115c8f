-- ===== src/Noise/Handshake.antt =====
-- src/noise.c, section 3: the public operations on a handshake. They check the role and the
-- message number, advance the number after a success, and wipe every secret after a failure.
-- The tests for NULL arguments have no counterpart.
use Prim.Native.String.{String}
use Prim.Native.Char.{code}
use noxtor_cli.Prelude.{
  ℕ, zero, suc, ◌+◌, Bool, true, false, ◌||◌, [], ◌∷◌, ◌++◌, Option, none, some, ltb, leb,
  if◌then◌else◌, length, not,
}
use noxtor_cli.Common.{Bytes, Err, Result, ok, err, key_len, hash_len, max_handshake_len, zeros}
use noxtor_cli.Sodium.{Sodium}
use noxtor_cli.Noise.Cipher.{CipherState, Session}
use noxtor_cli.Noise.Symmetric.{SymmetricState, symmetric_init, symmetric_mix_hash, symmetric_split}
use noxtor_cli.Noise.Messages.{
  Handshake, M, ◌>>=◌, ◌>>◌, return, wipe_e, write_msg0, write_msg1, write_msg2, read_msg0,
  read_msg1, read_msg2,
}

abbrev pub codes : String → Bytes
codes String.[] = []
codes (String.◌∷◌ c s) = code c ∷ codes s

-- NOISE_PROTOCOL_NAME
abbrev pub protocol_name : Bytes
protocol_name = codes "Noise_XX_25519_ChaChaPoly_BLAKE2b"

-- "Mustafa Kemal Atatürk" in UTF-8, where ü is two bytes.
abbrev pub prologue : Bytes
prologue = codes "Mustafa Kemal Atat" ++ 0xc3 ∷ 0xbc ∷ codes "rk"

unfoldable pub handshake_init : Sodium → Bool → Bytes → Bytes → Handshake
handshake_init S initiator s_priv s_pub = record {
  ss = symmetric_mix_hash S (symmetric_init S protocol_name) prologue;
  s = s_priv;
  s_pub = s_pub;
  e = zeros key_len;
  e_pub = zeros key_len;
  rs = zeros key_len;
  re = zeros key_len;
  initiator = initiator;
  msg_index = 0;
  split_done = false;
  failed = false;
}

-- The wiping that follows a failed read, write or split.
unfoldable pub fail : Handshake → Handshake
fail hs = record hs {
  failed = true;
  e = zeros key_len;
  e_pub = zeros key_len;
  s = zeros key_len;
  s_pub = zeros key_len;
  re = zeros key_len;
  rs = zeros key_len;
  ss = record {
    ck = zeros hash_len;
    h = zeros hash_len;
    cs = record { k = zeros key_len; n = hs.ss.cs.n; has_key = hs.ss.cs.has_key };
  };
}

-- `msg_index++` after a success.
unfoldable pub finish : Handshake × Result Bytes → Handshake × Result Bytes
finish (hs, ok m) = (record hs { msg_index = hs.msg_index + 1 }, ok m)
finish (hs, err e) = (fail hs, err e)

-- The message that a role may write at a message number; `none` is NOX_ERR_STATE.
unfoldable pub writer : Sodium → Bytes → Bytes → ℕ → Bool → ℕ → Option (M Bytes)
writer S eph payload out_cap true zero = some (write_msg0 S eph payload out_cap)
writer S eph payload out_cap true (suc (suc zero)) = some (write_msg2 S payload out_cap)
writer S eph payload out_cap false (suc zero) = some (write_msg1 S eph payload out_cap)
writer S eph payload out_cap initiator n = none

unfoldable pub reader : Sodium → Bytes → ℕ → Bool → ℕ → Option (M Bytes)
reader S msg out_cap true (suc zero) = some (do pl ← read_msg1 S msg out_cap; wipe_e; return pl)
reader S msg out_cap false zero = some (read_msg0 S msg out_cap)
reader S msg out_cap false (suc (suc zero)) =
    some (do pl ← read_msg2 S msg out_cap; wipe_e; return pl)
reader S msg out_cap initiator n = none

abbrev pub run : Handshake → Option (M Bytes) → Handshake × Result Bytes
run hs none = (hs, err Err.state)
run hs (some m) = finish (m hs)

-- `eph` is the ephemeral key that the message draws, if it draws one.
unfoldable pub handshake_write : Sodium → Handshake → Bytes → Bytes → ℕ → Handshake × Result Bytes
handshake_write S hs eph payload out_cap =
    if hs.split_done || hs.failed
    then (hs, err Err.state)
    else if ltb max_handshake_len (length payload)
    then (hs, err Err.proto)
    else run hs (writer S eph payload out_cap hs.initiator hs.msg_index)

unfoldable pub handshake_read : Sodium → Handshake → Bytes → ℕ → Handshake × Result Bytes
handshake_read S hs msg out_cap =
    if hs.split_done || hs.failed
    then (hs, err Err.state)
    else run hs (reader S msg out_cap hs.initiator hs.msg_index)

unfoldable pub handshake_is_complete : Handshake → Bool
handshake_is_complete hs = leb 3 hs.msg_index

-- Which of the two keys sends depends on the role.
abbrev pub directed : Bool → CipherState × CipherState → Bytes → Session
directed true (c1, c2) rs = record { tx = c1; rx = c2; remote_static = rs }
directed false (c1, c2) rs = record { tx = c2; rx = c1; remote_static = rs }

abbrev pub split_result :
    Handshake → SymmetricState × Result (CipherState × CipherState) → Handshake × Result Session
split_result hs (ss', err e) = (fail (record hs { ss = ss' }), err e)
split_result hs (ss', ok keys) = (
  record hs {
    ss = ss';
    e = zeros key_len;
    e_pub = zeros key_len;
    s = zeros key_len;
    s_pub = zeros key_len;
    re = zeros key_len;
    rs = zeros key_len;
    split_done = true;
  },
  ok (directed hs.initiator keys hs.rs),
)

-- On an error the session of the caller is left alone, so the result has none.
unfoldable pub handshake_split : Sodium → Handshake → Handshake × Result Session
handshake_split S hs =
    if hs.split_done || hs.failed
    then (hs, err Err.state)
    else if not (handshake_is_complete hs)
    then (hs, err Err.state)
    else split_result hs (symmetric_split S hs.ss)
