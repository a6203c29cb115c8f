-- ===== src/Receive/Rounds.antt =====
-- The loop of process_peer_frames in src/event_loop.c ends: every frame makes the buffer shorter.
use noxtor_cli.Prelude.{
  ℕ, zero, suc, ◌+◌, ◌≤◌, ◌<◌, ◌≡◌, refl, arith, Bool, true, false, not, ◌||◌, ◌&&◌, Option, none,
  some, ltb, ◌==◌, length, length-drop, Bool-cases, inl, inr,
}
use noxtor_cli.Common.{Bytes, Result, ok, err, max_payload_len}
use noxtor_cli.Sodium.{Sodium}
use noxtor_cli.Noise.Cipher.{Session}
use noxtor_cli.Wire.{FrameHeader, frame_header_decode, msg_ctrl}
use noxtor_cli.Peer.Types.{App, Env}
use noxtor_cli.Peer.Slot.{slot_same}
use noxtor_cli.Peer.Buffer.{Shrinks, same-Shrinks}
use noxtor_cli.Receive.Framing.{Round, wait, reset, frame, needs_session, take_frame, next_frame}
use noxtor_cli.Receive.Control.{on_ctrl}
use noxtor_cli.Receive.Frames.{
  World, with_session, on_frame, has_session, with_buf, and_next, on_found, frames_loop,
  process_peer_frames,
}
use noxtor_cli.Receive.Buffer.{data-Shrinks}
use noxtor_cli.Receive.ControlBuffer.{message-Shrinks}

module _ (S : Sodium) (env : Env) (W : World) (i fd : ℕ) where
  session-Shrinks :
      (a : App) (h : FrameHeader) (payload : Bytes) (o : Option Session)
      → Shrinks i a (with_session S env W i a h payload o).0
  session-Shrinks a h payload none = same-Shrinks i a
  session-Shrinks a h payload (some s) = data-Shrinks S env i W a s h payload

  frame-Shrinks :
      (a : App) (h : FrameHeader) (payload : Bytes)
      → Shrinks i a (on_frame S env W i fd a h payload).0
  unfolding on_frame on_ctrl
  frame-Shrinks a h payload = elim (Bool-cases (h.kind == msg_ctrl)) [
    | inl ctrl ↦ rw ctrl (message-Shrinks S env W.host i fd a payload (a.peers i).hs)
    | inr other ↦ elim (Bool-cases (needs_session h.kind)) [
      | inl data_frame ↦ rw (other, data_frame) (session-Shrinks a h payload (a.peers i).session)
      | inr ack ↦ rw (other, ack) (same-Shrinks i a)
    ]
  ]

-- A frame that is taken leaves fewer bytes.
Shorter : Bytes → Round → Type 0
Shorter buf wait = Unit {0}
Shorter buf reset = Unit {0}
Shorter buf (frame h payload rest) = length rest < length buf

take_frame-Shorter :
    (session mem : Bool) (buf : Bytes) (r : Result FrameHeader)
    → Shorter buf (take_frame session mem buf r)
unfolding Shorter
take_frame-Shorter session mem buf (err e) = tt
take_frame-Shorter session mem buf (ok h) =
    elim (Bool-cases (h.len == 0 || ltb max_payload_len h.len)) [
      | inl bad ↦ rw bad tt
      | inr sane ↦ elim (Bool-cases (ltb (length buf) (13 + h.len))) [
        | inl short ↦ simp (sane, short) tt
        | inr there ↦ elim (Bool-cases (needs_session h.kind && not session)) [
          | inl early ↦ simp (sane, there, early) tt
          | inr due ↦ elim (Bool-cases mem) [
            | inr lacking ↦ simp (sane, there, due, lacking) tt
            | inl got ↦
                let l = length-drop (13 + h.len) buf in simp (sane, there, due, got) (ground arith)
          ]
        ]
      ]
    ]

next_frame-Shorter : (session mem : Bool) (buf : Bytes) → Shorter buf (next_frame session mem buf)
unfolding next_frame Shorter
next_frame-Shorter session mem buf = elim (Bool-cases (ltb (length buf) 13)) [
  | inl few ↦ rw few tt
  | inr many ↦ rw many (take_frame-Shorter session mem buf (frame_header_decode buf))
]

module _ (S : Sodium) (env : Env) (W : World) (i fd : ℕ) where
  next_same :
      (r : App × Bool) (f g : App → App) (n : ℕ)
      → length (r.0.peers i).recv_buf < n
      → ((b : App) → length (b.peers i).recv_buf < n → f b ≡ g b)
      → and_next r f ≡ and_next r g
  next_same (b, true) f g n l k = k b l
  next_same (b, false) f g n l k = refl

  found_same :
      (a : App) (r : Round) (f g : App → App)
      → Shorter (a.peers i).recv_buf r
      → ((b : App) → length (b.peers i).recv_buf < length (a.peers i).recv_buf → f b ≡ g b)
      → on_found S env W i fd a r f ≡ on_found S env W i fd a r g
  unfolding Shorter
  found_same a wait f g l k = refl
  found_same a reset f g l k = refl
  found_same a (frame h payload rest) f g l k =
      let b = with_buf a i rest in
      let s = frame-Shrinks S env W i fd b h payload in
      let t : length (b.peers i).recv_buf ≤ length rest =
        rw (slot_same a i (record (a.peers i) { recv_buf = rest })) (omega arith) in
      next_same (on_frame S env W i fd b h payload) f g (length (a.peers i).recv_buf) (omega arith)
        k

  any_rounds :
      (m n : ℕ) (a : App)
      → length (a.peers i).recv_buf < m
      → length (a.peers i).recv_buf < n
      → frames_loop S env W i fd m a ≡ frames_loop S env W i fd n a
  unfolding frames_loop
  any_rounds zero n a l k = absurd (omega arith)
  any_rounds (suc m) zero a l k = absurd (omega arith)
  any_rounds (suc m) (suc n) a l k =
      found_same a
        (next_frame (has_session (a.peers i).session) W.payload_alloc (a.peers i).recv_buf)
        (λ b. frames_loop S env W i fd m b) (λ b. frames_loop S env W i fd n b)
        (next_frame-Shorter (has_session (a.peers i).session) W.payload_alloc (a.peers i).recv_buf)
        (λ b h. any_rounds m n b (omega arith) (omega arith))

  -- Whatever the buffer of the slot holds and whatever the frames in it do, the loop over the
  -- frames has ended within the rounds that it is given: with any other number of rounds that
  -- is greater than the number of bytes in the buffer it gives the same state.
  pub process_peer_frames_ends :
      (a : App) (rounds : ℕ)
      → length (a.peers i).recv_buf < rounds
      → frames_loop S env W i fd rounds a ≡ process_peer_frames S env W i fd a
  unfolding process_peer_frames
  process_peer_frames_ends a rounds l =
      any_rounds rounds (suc (length (a.peers i).recv_buf)) a l (omega arith)
