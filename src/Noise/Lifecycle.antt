-- ===== src/Noise/Lifecycle.antt =====
-- What a handshake can and cannot do over its life (src/noise.c, section 3): the messages come in
-- order and at most once each, a failure is final and leaves no secret, and it is split once.
use noxtor_cli.Prelude.{
  ℕ, zero, suc, ◌+◌, ◌<◌, ◌≡◌, refl, Bool, true, false, arith, length, ◌⊎◌, inl, inr, Bool-cases,
  ◌||◌, ltb,
}
use noxtor_cli.Common.{Bytes, Result, ok, err, key_len, hash_len, zeros}
use noxtor_cli.Sodium.{Sodium}
use noxtor_cli.Noise.Messages.{
  Handshake, M, ◌>>=◌, ◌>>◌, return, wipe_e, write_msg0, write_msg1, write_msg2, read_msg0,
  read_msg1, read_msg2,
}
use noxtor_cli.Noise.Handshake.{fail, finish, writer, reader, run, handshake_write, handshake_read}

-- What the messages themselves never change.
record SameStage (hs hs' : Handshake) : Type 0 where
  initiator : hs'.initiator ≡ hs.initiator
  msg_index : hs'.msg_index ≡ hs.msg_index
  split_done : hs'.split_done ≡ hs.split_done
  failed : hs'.failed ≡ hs.failed

abbrev Keeps : {A : Type 0} → M A → Type 0
Keeps m = (hs : Handshake) → SameStage hs (m hs).0

write_msg0-Keeps : (S : Sodium) (eph pl : Bytes) (n : ℕ) → Keeps (write_msg0 S eph pl n)
unfolding write_msg0
write_msg0-Keeps S eph pl n hs = ground arith

write_msg1-Keeps : (S : Sodium) (eph pl : Bytes) (n : ℕ) → Keeps (write_msg1 S eph pl n)
unfolding write_msg1
write_msg1-Keeps S eph pl n hs = ground arith

write_msg2-Keeps : (S : Sodium) (pl : Bytes) (n : ℕ) → Keeps (write_msg2 S pl n)
unfolding write_msg2
write_msg2-Keeps S pl n hs = ground arith

read_msg0-Keeps : (S : Sodium) (msg : Bytes) (n : ℕ) → Keeps (read_msg0 S msg n)
unfolding read_msg0
read_msg0-Keeps S msg n hs = ground arith

read_msg1-Keeps : (S : Sodium) (msg : Bytes) (n : ℕ) → Keeps (read_msg1 S msg n)
unfolding read_msg1
read_msg1-Keeps S msg n hs = ground arith

read_msg2-Keeps : (S : Sodium) (msg : Bytes) (n : ℕ) → Keeps (read_msg2 S msg n)
unfolding read_msg2
read_msg2-Keeps S msg n hs = ground arith

-- Nothing secret is left, and the handshake is marked as failed.
pub record IsWiped (hs : Handshake) : Type 0 where
  pub marked : hs.failed ≡ true
  pub static : (hs.s ≡ zeros key_len) × (hs.s_pub ≡ zeros key_len)
  pub ephemeral : (hs.e ≡ zeros key_len) × (hs.e_pub ≡ zeros key_len)
  pub remote : (hs.rs ≡ zeros key_len) × (hs.re ≡ zeros key_len)
  pub transcript : (hs.ss.ck ≡ zeros hash_len) × (hs.ss.h ≡ zeros hash_len)
  pub cipher : hs.ss.cs.k ≡ zeros key_len

-- A message went through: it was the role's turn, and nothing but the stage has moved on.
pub record Advances (hs hs' : Handshake) : Type 0 where
  pub live : (hs.failed ≡ false) × (hs.split_done ≡ false)
  pub still : (hs'.failed ≡ false) × (hs'.split_done ≡ false)
  pub role : hs'.initiator ≡ hs.initiator
  pub early : hs.msg_index < 3
  pub counted : hs'.msg_index ≡ hs.msg_index + 1

-- A message failed: its secrets are gone, at the stage where it stood.
pub record Fails (hs hs' : Handshake) : Type 0 where
  pub wiped : IsWiped hs'
  pub unsplit : hs'.split_done ≡ false
  pub uncounted : hs'.msg_index ≡ hs.msg_index

abbrev pub Outcome : Handshake → Handshake × Result Bytes → Type 0
Outcome hs (hs', ok m) = Advances hs hs'
Outcome hs (hs', err e) = (hs' ≡ hs) ⊎ Fails hs hs'

finish-Outcome :
    (hs : Handshake) (r : Handshake × Result Bytes)
    → hs.failed ≡ false
    → hs.split_done ≡ false
    → hs.msg_index < 3
    → SameStage hs r.0
    → Outcome hs (finish r)
unfolding finish fail
finish-Outcome hs (hs', ok m) f d i s = ground arith
finish-Outcome hs (hs', err e) f d i s = inr (ground arith)

run_writer :
    (S : Sodium) (hs : Handshake) (eph payload : Bytes) (room : ℕ) (i : Bool) (n : ℕ)
    → hs.failed ≡ false
    → hs.split_done ≡ false
    → hs.msg_index ≡ n
    → Outcome hs (run hs (writer S eph payload room i n))
unfolding writer
run_writer S hs eph pl room true zero f d e =
    finish-Outcome hs (write_msg0 S eph pl room hs) f d (omega arith)
      (write_msg0-Keeps S eph pl room hs)
run_writer S hs eph pl room true (suc zero) f d e = inl refl
run_writer S hs eph pl room true (suc (suc zero)) f d e =
    finish-Outcome hs (write_msg2 S pl room hs) f d (omega arith) (write_msg2-Keeps S pl room hs)
run_writer S hs eph pl room true (suc (suc (suc n))) f d e = inl refl
run_writer S hs eph pl room false zero f d e = inl refl
run_writer S hs eph pl room false (suc zero) f d e =
    finish-Outcome hs (write_msg1 S eph pl room hs) f d (omega arith)
      (write_msg1-Keeps S eph pl room hs)
run_writer S hs eph pl room false (suc (suc n)) f d e = inl refl

abbrev then_wipe : M Bytes → M Bytes
then_wipe m = do pl ← m; wipe_e; return pl

then_wipe-Keeps : (m : M Bytes) → Keeps m → Keeps (then_wipe m)
then_wipe-Keeps m k hs = ground (arith, k hs)

run_reader :
    (S : Sodium) (hs : Handshake) (msg : Bytes) (room : ℕ) (i : Bool) (n : ℕ)
    → hs.failed ≡ false
    → hs.split_done ≡ false
    → hs.msg_index ≡ n
    → Outcome hs (run hs (reader S msg room i n))
unfolding reader
run_reader S hs msg room true zero f d e = inl refl
run_reader S hs msg room true (suc zero) f d e =
    finish-Outcome hs (then_wipe (read_msg1 S msg room) hs) f d (omega arith)
      (then_wipe-Keeps (read_msg1 S msg room) (read_msg1-Keeps S msg room) hs)
run_reader S hs msg room true (suc (suc n)) f d e = inl refl
run_reader S hs msg room false zero f d e =
    finish-Outcome hs (read_msg0 S msg room hs) f d (omega arith) (read_msg0-Keeps S msg room hs)
run_reader S hs msg room false (suc zero) f d e = inl refl
run_reader S hs msg room false (suc (suc zero)) f d e =
    finish-Outcome hs (then_wipe (read_msg2 S msg room) hs) f d (omega arith)
      (then_wipe-Keeps (read_msg2 S msg room) (read_msg2-Keeps S msg room) hs)
run_reader S hs msg room false (suc (suc (suc n))) f d e = inl refl

-- Writing a message either succeeds, at a stage below 3 of a live handshake, and moves on by one
-- message; or is refused and changes nothing; or fails, and then nothing secret is left.
pub handshake_write-Outcome :
    (S : Sodium) (hs : Handshake) (eph payload : Bytes) (room : ℕ)
    → Outcome hs (handshake_write S hs eph payload room)
unfolding handshake_write
handshake_write-Outcome S hs eph payload room = elim (Bool-cases (hs.split_done || hs.failed)) [
  | inl dead ↦ rw dead (inl refl)
  | inr live ↦ rw live (elim (Bool-cases (ltb 256 (length payload))) [
    | inl big ↦ rw big (inl refl)
    | inr small ↦ rw small (
        run_writer S hs eph payload room hs.initiator hs.msg_index (ground arith) (ground arith)
          refl)
  ])
]

-- Reading a message either succeeds, at a stage below 3 of a live handshake, and moves on by one
-- message; or is refused and changes nothing; or fails, and then nothing secret is left.
pub handshake_read-Outcome :
    (S : Sodium) (hs : Handshake) (msg : Bytes) (room : ℕ)
    → Outcome hs (handshake_read S hs msg room)
unfolding handshake_read
handshake_read-Outcome S hs msg room = elim (Bool-cases (hs.split_done || hs.failed)) [
  | inl dead ↦ rw dead (inl refl)
  | inr live ↦
      rw live
        (run_reader S hs msg room hs.initiator hs.msg_index (ground arith) (ground arith) refl)
]
