-- ===== src/Send/Segmented.antt =====
-- src/stdin_handler.c: send_queued_callback, send_segmented_message and
-- send_segmented_message_to. Every frame is encrypted under the next nonce of the session and
-- numbered by tx_seq; a write that is not complete ends the connection.
use noxtor_cli.Prelude.{
  ℕ, zero, suc, ◌+◌, ◌%◌, Bool, not, List, [], ◌∷◌, ◌++◌, Option, none, some, ltb, leb, ◌==◌,
  if◌then◌else◌, length, take, drop,
}
use noxtor_cli.Common.{Bytes, Err, Result, ok, err, u32_mod, max_msg_len}
use noxtor_cli.Sodium.{Sodium}
use noxtor_cli.Noise.Cipher.{Session, noise_encrypt}
use noxtor_cli.Peer.Types.{PeerEvent, Peer, App, Env, Effect, write, set_peer, max_peers}
use noxtor_cli.Peer.Dispatch.{sm_dispatch}
use noxtor_cli.Wire.{frame_header_encode, frame_magic, msg_text}
use noxtor_cli.Send.Chunks.{next_chunk_size}

-- What the system answers: whether sodium_malloc gives the buffers, and how many of the bytes
-- the k-th writev of a call takes, `none` being its error.
pub record Kernel : Type 0 where
  pub buffers : Bool
  pub writev : ℕ → ℕ → Option ℕ

-- The two parts that writev is given.
unfoldable pub text_frame : ℕ → Bytes → Bytes
text_frame seq ct =
    frame_header_encode
      (record { magic = frame_magic; kind = msg_text; seq = seq; len = length ct })
    ++ ct

abbrev pub emit : App → List Effect → App
emit a es = record a { effects = a.effects ++ es }

-- ps->tx_seq++ of a uint32_t, and the time of the last activity.
unfoldable pub sent : Env → ℕ → App → App
sent env i a =
    set_peer a i
      (record (a.peers i) { tx_seq = ((a.peers i).tx_seq + 1) % u32_mod; last_active = env.now })

-- The answer of writev to a frame.
unfoldable pub finish_write :
    Sodium → Env → ℕ → ℕ → Bytes → App → Option ℕ → App × Result (Unit {0})
finish_write S env i fd frame a none =
    ((sm_dispatch S env i a PeerEvent.peer_disconnected).0, err Err.io)
finish_write S env i fd frame a (some n) =
    let b = emit a (write fd (take n frame) ∷ []) in
    if n == length frame
    then (sent env i b, ok tt)
    else ((sm_dispatch S env i b PeerEvent.peer_disconnected).0, err Err.io)

unfoldable pub transmit :
    Sodium → Env → Kernel → ℕ → ℕ → ℕ → App → Session × Option Bytes → App × Result (Unit {0})
transmit S env os k i fd a (s, none) =
    (set_peer a i (record (a.peers i) { session = some s }), err Err.crypto)
transmit S env os k i fd a (s, some ct) =
    let b = set_peer a i (record (a.peers i) { session = some s }) in
    let frame = text_frame (b.peers i).tx_seq ct in
    finish_write S env i fd frame b (os.writev k (length frame))

-- One frame of text: encrypted with the session of the slot, and written.
unfoldable pub send_text :
    Sodium → Env → Kernel → ℕ → ℕ → ℕ → App → Option Session → Bytes → App × Result (Unit {0})
send_text S env os k i fd a none text = (a, err Err.net)
send_text S env os k i fd a (some s) text = transmit S env os k i fd a (noise_encrypt S s text)

abbrev pub connected : Peer → Option (ℕ × Session)
connected p = elim p.fd [
  | none ↦ none
  | some fd ↦ elim p.session [ none ↦ none | some s ↦ some (fd, s) ]
]

-- The text of a queued message, with its NUL.
abbrev pub nul : Bytes → Bytes
nul text = text ++ 0 ∷ []

abbrev pub queued_to :
    Sodium → Env → Kernel → ℕ → App → Bytes → Option (ℕ × Session) → App × Result (Unit {0})
queued_to S env os i a text none = (a, err Err.net)
queued_to S env os i a text (some (fd, s)) =
    if ltb max_msg_len (length text + 1)
    then (a, err Err.proto)
    else if not os.buffers
    then (a, err Err.alloc)
    else send_text S env os 0 i fd a (some s) (nul text)

unfoldable pub send_queued_callback :
    Sodium → Env → Kernel → ℕ → App → Bytes → App × Result (Unit {0})
send_queued_callback S env os i a text = queued_to S env os i a text (connected (a.peers i))

abbrev pub chunk_at : Bytes → ℕ → Bytes
chunk_at msg offset = take (next_chunk_size msg offset (length msg)) (drop offset msg)

abbrev pub and_then :
    App × Result (Unit {0}) → (App → App × Result (Unit {0})) → App × Result (Unit {0})
and_then (a, ok u) f = f a
and_then (a, err e) f = (a, err e)

-- The while loop, with the number of frames sent so far; the fuel bounds its rounds.
unfoldable pub send_loop :
    Sodium → Env → Kernel → ℕ → ℕ → Bytes → ℕ → ℕ → ℕ → App → App × Result (Unit {0})
send_loop S env os i fd msg zero k offset a = (a, err Err.overflow)
send_loop S env os i fd msg (suc fuel) k offset a =
    if leb (length msg) offset
    then (a, ok tt)
    else and_then (send_text S env os k i fd a (a.peers i).session (nul (chunk_at msg offset)))
        (λ b.
          send_loop S env os i fd msg fuel (suc k)
            (offset + next_chunk_size msg offset (length msg)) b)

abbrev pub segmented_to :
    Sodium → Env → Kernel → ℕ → App → Bytes → Option (ℕ × Session) → App × Result (Unit {0})
segmented_to S env os i a msg none = (a, err Err.net)
segmented_to S env os i a msg (some (fd, s)) =
    if not os.buffers
    then (a, err Err.alloc)
    else send_loop S env os i fd msg (suc (length msg)) 0 0 a

-- Each round sends at least one byte, so one round for each byte and one to stop are enough.
unfoldable pub send_segmented_message_to :
    Sodium → Env → Kernel → ℕ → App → Bytes → App × Result (Unit {0})
send_segmented_message_to S env os i a msg = segmented_to S env os i a msg (connected (a.peers i))

unfoldable pub send_segmented_message :
    Sodium → Env → Kernel → App → Bytes → App × Result (Unit {0})
send_segmented_message S env os a msg = elim a.active_peer_idx [
  | none ↦ (a, err Err.net)
  | some i ↦
      if ltb i max_peers then send_segmented_message_to S env os i a msg else (a, err Err.net)
]
