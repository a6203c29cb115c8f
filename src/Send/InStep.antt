-- ===== src/Send/InStep.antt =====
-- The pairing of sequence numbers and nonces that src/stdin_handler.c keeps: the receiver takes
-- a frame only with the next number, and decrypts it only with the next nonce.
use noxtor_cli.Prelude.{
  ℕ, suc, ◌+◌, ◌≡◌, ◌≤◌, ◌<◌, refl, some, ltb, length, arith, Bool-cases, inl, inr, Option-cases,
}
use noxtor_cli.Common.{Bytes, Err, Result, ok, err, max_msg_len, uint64_max}
use noxtor_cli.Sodium.{Sodium, SodiumLaws}
use noxtor_cli.Noise.Cipher.{Session}
use noxtor_cli.Peer.Types.{App, Env}
use noxtor_cli.Send.Segmented.{
  Kernel, nul, send_segmented_message_to, send_queued_callback, queued_to, segmented_to,
}
use noxtor_cli.Send.Frames.{connected_on, connected_off}
use noxtor_cli.Send.Answers.{InStep, Progress, Outcome}
use noxtor_cli.Send.OneFrame.{send_text-OneFrame}
use noxtor_cli.Send.Loop.{send_loop-Progress, one-Progress}

of-Progress :
    (S : Sodium) (os : Kernel) (long : Type 0) (i fd : ℕ) (a : App) (s : Session) (msg : Bytes)
    (r : App × Result (Unit {0}))
    → (a.peers i).fd ≡ some fd
    → Progress S os i fd 0 a s msg r
    → Outcome S os long i a s msg r
unfolding Outcome Progress
of-Progress S os long i fd a s msg (b, ok u) on p = (fd, on, p)
of-Progress S os long i fd a s msg (b, err Err.io) on p = (fd, on, p)
of-Progress S os long i fd a s msg (b, err Err.crypto) on p = (fd, on, p)
of-Progress S os long i fd a s msg (b, err _) on p = absurd p

-- From a slot that is not idle, with a session whose next nonce is paired with the next sequence
-- number: whatever the system answers to each frame, sending a message of at most 2^64 - 1 bytes
-- ends without running out of rounds, in one of these ways. It succeeds, the pieces of the whole
-- message were encrypted in the order of the session, the system took each of their frames in
-- whole, these are what was written, and nonce and number are still paired. It fails with
-- NOX_ERR_IO, the system took every frame of the pieces so far but the last one in whole, and the
-- slot is idle and empty. It fails with NOX_ERR_CRYPTO at a piece that noise_encrypt refuses, the
-- frames before it were taken, and nonce and number are still paired. Or nothing changes, since
-- the slot has no descriptor or the buffers cannot be allocated.
pub send_segmented-Outcome :
    (S : Sodium) (L : SodiumLaws S) (env : Env) (os : Kernel) (i : ℕ) (a : App) (msg : Bytes)
    (v : InStep (a.peers i))
    → length msg ≤ uint64_max
    → Outcome S os ⊥ i a v.current msg (send_segmented_message_to S env os i a msg)
unfolding send_segmented_message_to Outcome
send_segmented-Outcome S L env os i a msg v m = elim (Option-cases (a.peers i).fd) [
  | inl off ↦ rw (connected_off (a.peers i) off) (refl, off)
  | inr (fd, on) ↦ rw (connected_on (a.peers i) fd v.current on v.has_session) (segmented fd on)
]
  where
    segmented :
        (fd : ℕ)
        → (a.peers i).fd ≡ some fd
        → Outcome S os ⊥ i a v.current msg (segmented_to S env os i a msg (some (fd, v.current)))
    segmented fd on = elim (Bool-cases os.buffers) [
      | inl got ↦ simp got (
          of-Progress S os ⊥ i fd a v.current msg _ on (
            send_loop-Progress S L env os i fd msg (suc (length msg)) 0 0 a v m (omega arith)
              (omega arith)))
      | inr lacking ↦ simp lacking (refl, refl)
    ]

-- From a slot that is not idle, with a session whose next nonce is paired with the next sequence
-- number: whatever the system answers, sending a queued message ends in one of these ways. It
-- succeeds, the message was encrypted, the system took each of its frames in whole, these are
-- what was written, and nonce and number are still paired. It fails with NOX_ERR_IO, the system
-- did not take the last frame in whole, and the slot is idle and empty. It fails with
-- NOX_ERR_CRYPTO at text that noise_encrypt refuses, the frames before it were taken, and nonce
-- and number are still paired. Or nothing changes, since the slot has no descriptor, the buffers
-- cannot be allocated, or the message with its NUL is longer than a frame may carry.
pub send_queued-Outcome :
    (S : Sodium) (L : SodiumLaws S) (env : Env) (os : Kernel) (i : ℕ) (a : App) (text : Bytes)
    (v : InStep (a.peers i))
    → Outcome S os
        (max_msg_len < length text + 1)
        i
        a
        v.current
        text
        (send_queued_callback S env os i a text)
unfolding send_queued_callback Outcome
send_queued-Outcome S L env os i a text v = elim (Option-cases (a.peers i).fd) [
  | inl off ↦ rw (connected_off (a.peers i) off) (refl, off)
  | inr (fd, on) ↦ rw (connected_on (a.peers i) fd v.current on v.has_session) (queued fd on)
]
  where
    queued :
        (fd : ℕ)
        → (a.peers i).fd ≡ some fd
        → Outcome S os
            (max_msg_len < length text + 1)
            i
            a
            v.current
            text
            (queued_to S env os i a text (some (fd, v.current)))
    queued fd on = elim (Bool-cases (ltb max_msg_len (length text + 1))) [
      | inl long ↦ rw long (refl, ground arith)
      | inr fits ↦ elim (Bool-cases os.buffers) [
        | inl got ↦
            simp (fits, got)
              (of-Progress S os (max_msg_len < length text + 1) i fd a v.current text _ on (
                one-Progress S L env os i fd a v text _
                  (rw⁻¹ v.has_session (send_text-OneFrame S L env os i fd 0 a (nul text) v))))
        | inr lacking ↦ simp (fits, lacking) (refl, refl)
      ]
    ]
