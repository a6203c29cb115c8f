-- ===== src/Receive/Frames.antt =====
-- process_peer_frames of src/event_loop.c as a whole: what is done with the frames of a buffer.
use noxtor_cli.Prelude.{
  ℕ, zero, suc, ◌+◌, ◌-◌, ◌%◌, Bool, true, false, not, ◌||◌, ◌&&◌, List, [], ◌∷◌, ◌++◌, Option,
  none, some, ltb, ◌==◌, if◌then◌else◌, length,
}
use noxtor_cli.Common.{Bytes, Result, u32_mod, c_string}
use noxtor_cli.Sodium.{Sodium}
use noxtor_cli.Noise.Cipher.{Session, noise_decrypt}
use noxtor_cli.Wire.{FrameHeader, msg_ctrl, msg_text}
use noxtor_cli.Peer.Types.{PeerEvent, App, Env, Effect, incoming, set_peer}
use noxtor_cli.Peer.Dispatch.{sm_dispatch}
use noxtor_cli.File.Storage.{Storage}
use noxtor_cli.File.Receive.{emit, file_transfer_handle_rx}
use noxtor_cli.Send.Segmented.{Kernel, send_queued_callback}
use noxtor_cli.Queue.{Row, db_process_queue}
use noxtor_cli.Receive.Framing.{Round, wait, reset, frame, needs_session, next_frame}
use noxtor_cli.Receive.Room.{recv_buf_capacity}
use noxtor_cli.Receive.Control.{Host, on_ctrl}

-- What the loop takes from outside. `payload_alloc` and `text_alloc` tell whether sodium_malloc gives
-- the buffers of a payload and of a text, and `queue` has the rows that are queued for an onion.
pub record World : Type 0 where
  pub host : Host
  pub disk : Storage
  pub kernel : Kernel
  pub payload_alloc : Bool
  pub text_alloc : Bool
  pub queue : Bytes → Result (List Row)

-- strspn(msg, " \t") == strlen(msg)
unfoldable pub is_blank : Bytes → Bool
is_blank [] = true
is_blank (c ∷ cs) = (c == 32 || c == 9) && is_blank cs

-- ui_print_incoming
unfoldable pub ui_print_incoming : Bytes → List Effect
ui_print_incoming msg = if is_blank msg then [] else incoming msg ∷ []

abbrev pub mark_flushed : ℕ → App → App
mark_flushed i a = set_peer a i (record (a.peers i) { queue_flushed = true })

-- The first message of a session sends the queue, but not to a key that is not verified.
unfoldable pub flush_queue : Sodium → Env → World → ℕ → App → App
flush_queue S env W i a =
    if (a.peers i).queue_flushed || a.ghost_mode
    then a
    else if not (a.peers i).peer_verified
    then mark_flushed i a
    else (db_process_queue (λ b text. send_queued_callback S env W.kernel i b text)
        (W.queue (a.peers i).peer_onion) (mark_flushed i a)).0

abbrev pub counted : Env → ℕ → App → App
counted env i a =
    set_peer a i
      (record (a.peers i) { rx_seq = ((a.peers i).rx_seq + 1) % u32_mod; last_active = env.now })

-- A text of no bytes is treated like one that cannot be decrypted.
abbrev pub on_plain : Sodium → Env → World → ℕ → App → Option Bytes → App
on_plain S env W i a none = a
on_plain S env W i a (some []) = a
on_plain S env W i a (some (b ∷ bs)) =
    counted env i
      (flush_queue S env W i (emit a (ui_print_incoming (c_string (suc (length bs)) (b ∷ bs)))))

unfoldable pub on_text : Sodium → Env → World → ℕ → App → Session → Bytes → App
on_text S env W i a s payload =
    if not W.text_alloc
    then a
    else let (t, r) = noise_decrypt S s payload in
      on_plain S env W i (set_peer a i (record (a.peers i) { session = some t })) r

abbrev pub count_if : Env → ℕ → App × Bool → App
count_if env i (a, true) = counted env i a
count_if env i (a, false) = a

-- A TEXT or FILE frame for the session of the slot.
unfoldable pub on_data : Sodium → Env → World → ℕ → App → Session → FrameHeader → Bytes → App × Bool
on_data S env W i a s h payload =
    if not (h.seq == (a.peers i).rx_seq)
    then ((sm_dispatch S env i a PeerEvent.seq_mismatch).0, false)
    else if h.kind == msg_text
    then (on_text S env W i a s payload, true)
    else (count_if env i (file_transfer_handle_rx S env W.disk i a payload), true)

abbrev pub with_session :
    Sodium → Env → World → ℕ → App → FrameHeader → Bytes → Option Session → App × Bool
with_session S env W i a h payload none = (a, true)
with_session S env W i a h payload (some s) = on_data S env W i a s h payload

-- `true` goes on with the next frame.
unfoldable pub on_frame : Sodium → Env → World → ℕ → ℕ → App → FrameHeader → Bytes → App × Bool
on_frame S env W i fd a h payload =
    if h.kind == msg_ctrl
    then on_ctrl S env W.host i fd a payload
    else if needs_session h.kind
    then with_session S env W i a h payload (a.peers i).session
    else (a, true)

abbrev pub has_session : Option Session → Bool
has_session none = false
has_session (some s) = true

abbrev pub with_buf : App → ℕ → Bytes → App
with_buf a i buf = set_peer a i (record (a.peers i) { recv_buf = buf })

abbrev pub and_next : App × Bool → (App → App) → App
and_next (a, true) next = next a
and_next (a, false) next = a

-- A round of the loop; the frame leaves the buffer before it is handled.
abbrev pub on_found : Sodium → Env → World → ℕ → ℕ → App → Round → (App → App) → App
on_found S env W i fd a wait next = a
on_found S env W i fd a reset next = with_buf a i []
on_found S env W i fd a (frame h payload rest) next =
    and_next (on_frame S env W i fd (with_buf a i rest) h payload) next

unfoldable pub frames_loop : Sodium → Env → World → ℕ → ℕ → ℕ → App → App
frames_loop S env W i fd zero a = a
frames_loop S env W i fd (suc fuel) a =
    on_found S env W i fd a
      (next_frame (has_session (a.peers i).session) W.payload_alloc (a.peers i).recv_buf)
      (λ b. frames_loop S env W i fd fuel b)

-- Each round takes a byte at least out of the buffer.
unfoldable pub process_peer_frames : Sodium → Env → World → ℕ → ℕ → App → App
process_peer_frames S env W i fd a = frames_loop S env W i fd (suc (length (a.peers i).recv_buf)) a

-- What recv answers: bytes, EAGAIN or EINTR, or the end of the connection.
pub data Received : Type 0 where
  got : Bytes → Received
  again closed : Received

-- The bytes that were read go behind those of the buffer.
unfoldable pub on_bytes : Sodium → Env → World → ℕ → ℕ → App → Bytes → App
on_bytes S env W i fd a bytes = process_peer_frames S env W i fd (
    set_peer a i
      (record (a.peers i) { recv_buf = (a.peers i).recv_buf ++ bytes; last_active = env.now }))

abbrev pub hang_up : Sodium → Env → ℕ → App → App
hang_up S env i a = (sm_dispatch S env i a PeerEvent.peer_disconnected).0

abbrev pub hang_up_open : Sodium → Env → ℕ → App → Option ℕ → App
hang_up_open S env i a none = a
hang_up_open S env i a (some fd) = hang_up S env i a

abbrev pub on_recv : Sodium → Env → World → ℕ → ℕ → App → Received → App
on_recv S env W i fd a (got bytes) = on_bytes S env W i fd a bytes
on_recv S env W i fd a again = a
on_recv S env W i fd a closed = hang_up S env i a

-- The EPOLLIN branch of event_loop: `avail` is the answer of FIONREAD, and `recv` that of recv for as
-- many bytes as it is asked for.
unfoldable pub on_readable : Sodium → Env → World → ℕ → ℕ → App → ℕ → (ℕ → Received) → App
on_readable S env W i fd a avail recv =
    let space = recv_buf_capacity - length (a.peers i).recv_buf in
    let to_read = if ltb avail space && ltb 0 avail then avail else space in
    if to_read == 0
    then (let b = process_peer_frames S env W i fd a in hang_up_open S env i b (b.peers i).fd)
    else on_recv S env W i fd a (recv to_read)
