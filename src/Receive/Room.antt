-- ===== src/Receive/Room.antt =====
-- The receive buffer of src/event_loop.c has 13 + 4096 + 16 bytes; a connection whose buffer is full
-- before it can read is closed.
use noxtor_cli.Prelude.{
  ℕ, zero, suc, ◌+◌, ◌<◌, ◌≡◌, arith, Bool, true, false, not, ◌&&◌, ◌||◌, ltb, ◌==◌, List, length,
  length-drop, Bool-cases, inl, inr,
}
use noxtor_cli.Common.{Bytes, Result, ok, err, max_payload_len}
use noxtor_cli.Wire.{FrameHeader, frame_header_decode}
use noxtor_cli.Receive.Framing.{
  Round, wait, reset, frame, needs_session, take_frame, next_frame, on_round, split_frames,
}

-- RECV_BUF_CAPACITY
abbrev pub recv_buf_capacity : ℕ
recv_buf_capacity = 4125

-- A round either waits with room left, or throws the buffer away, or makes it shorter.
Progress : Bytes → Round → Type 0
Progress buf wait = length buf < recv_buf_capacity
Progress buf reset = Unit {0}
Progress buf (frame h payload rest) = length rest < length buf

no_wait : (kind : ℕ) → (needs_session kind && not true) ≡ false
no_wait kind = ground arith

taken-Progress :
    (mem : Bool) (buf : Bytes) (h : FrameHeader)
    → (h.len == 0 || ltb max_payload_len h.len) ≡ false
    → ltb (length buf) (13 + h.len) ≡ false
    → Progress buf (take_frame true mem buf (ok h))
unfolding Progress
taken-Progress true buf h sane there =
    let l = length-drop (13 + h.len) buf in simp (sane, there, no_wait h.kind) (ground arith)
taken-Progress false buf h sane there = simp (sane, there, no_wait h.kind) tt

take_frame-Progress :
    (mem : Bool) (buf : Bytes) (r : Result FrameHeader) → Progress buf (take_frame true mem buf r)
unfolding Progress
take_frame-Progress mem buf (err e) = tt
take_frame-Progress mem buf (ok h) = elim (Bool-cases (h.len == 0 || ltb max_payload_len h.len)) [
  | inl bad ↦ rw bad tt
  | inr sane ↦ elim (Bool-cases (ltb (length buf) (13 + h.len))) [
    | inl short ↦ simp (sane, short) (ground arith)
    | inr there ↦ taken-Progress mem buf h sane there
  ]
]

next_frame-Progress : (mem : Bool) (buf : Bytes) → Progress buf (next_frame true mem buf)
unfolding next_frame Progress
next_frame-Progress mem buf = elim (Bool-cases (ltb (length buf) 13)) [
  | inl few ↦ rw few (ground arith)
  | inr many ↦ rw many (take_frame-Progress mem buf (frame_header_decode buf))
]

on_round_room :
    (buf : Bytes) (r : Round) (next : Bytes → List (FrameHeader × Bytes) × Bytes)
    → Progress buf r
    → ((rest : Bytes) → length rest < length buf → length (next rest).1 < recv_buf_capacity)
    → length (on_round buf r next).1 < recv_buf_capacity
unfolding Progress
on_round_room buf wait next p k = p
on_round_room buf reset next p k = omega arith
on_round_room buf (frame h payload rest) next p k = k rest p

-- With a session, whatever bytes the peer sends and whether memory is exhausted or not, once the
-- loop has run, with a round for each byte and one more, there is room in the receive buffer for
-- at least one byte.
pub split_frames_room :
    (mem : Bool) (fuel : ℕ) (buf : Bytes)
    → length buf < fuel
    → length (split_frames true mem fuel buf).1 < recv_buf_capacity
unfolding split_frames
split_frames_room mem zero buf h = absurd (omega arith)
split_frames_room mem (suc fuel) buf h =
    on_round_room buf (next_frame true mem buf) (λ rest. split_frames true mem fuel rest)
      (next_frame-Progress mem buf) (λ rest l. split_frames_room mem fuel rest (omega arith))
