-- ===== src/Receive/Framing.antt =====
-- The loop of process_peer_frames in src/event_loop.c, without what is done with a frame: the
-- header, its checks, and what becomes of the receive buffer. The buffer is its bytes up to
-- recv_pos.
use noxtor_cli.Prelude.{
  ℕ, zero, suc, ◌+◌, Bool, not, ◌&&◌, ◌||◌, List, [], ◌∷◌, ltb, ◌==◌, if◌then◌else◌, length, take,
  drop,
}
use noxtor_cli.Common.{Bytes, Result, ok, err, max_payload_len}
use noxtor_cli.Wire.{FrameHeader, frame_header_decode, frame_header_size, msg_text, msg_file}

-- What a round of the loop finds: too few bytes or a frame that has to wait, a buffer that is
-- thrown away, or a frame with its payload and the bytes behind it.
pub data Round : Type 0 where
  wait reset : Round
  frame : FrameHeader → Bytes → Bytes → Round

-- A TEXT or FILE frame waits for the session.
abbrev pub needs_session : ℕ → Bool
needs_session kind = kind == msg_text || kind == msg_file

abbrev pub take_frame : Bool → Bool → Bytes → Result FrameHeader → Round
take_frame session mem buf (err e) = reset
take_frame session mem buf (ok h) =
    if h.len == 0 || ltb max_payload_len h.len
    then reset
    else if ltb (length buf) (frame_header_size + h.len)
    then wait
    else if needs_session h.kind && not session
    then wait
    else if not mem
    then reset
    else frame h (take h.len (drop frame_header_size buf)) (drop (frame_header_size + h.len) buf)

-- `session` tells whether the slot has a session, `mem` whether sodium_malloc gives the payload's
-- buffer.
unfoldable pub next_frame : Bool → Bool → Bytes → Round
next_frame session mem buf =
    if ltb (length buf) frame_header_size
    then wait
    else take_frame session mem buf (frame_header_decode buf)

abbrev pub add_frame :
    FrameHeader → Bytes → List (FrameHeader × Bytes) × Bytes → List (FrameHeader × Bytes) × Bytes
add_frame h payload (fs, rest) = ((h, payload) ∷ fs, rest)

abbrev pub on_round :
    Bytes
    → Round
    → (Bytes → List (FrameHeader × Bytes) × Bytes)
    → List (FrameHeader × Bytes) × Bytes
on_round buf wait next = ([], buf)
on_round buf reset next = ([], [])
on_round buf (frame h payload rest) next = add_frame h payload (next rest)

-- The frames of a buffer, and the bytes that stay in it. A frame has at least 14 bytes, so one
-- round for each byte is more than enough.
unfoldable pub split_frames : Bool → Bool → ℕ → Bytes → List (FrameHeader × Bytes) × Bytes
split_frames session mem zero buf = ([], buf)
split_frames session mem (suc fuel) buf =
    on_round buf (next_frame session mem buf) (λ rest. split_frames session mem fuel rest)
