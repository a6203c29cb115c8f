-- ===== src/Receive/Control.antt =====
-- The CTRL frame in process_peer_frames of src/event_loop.c: a message of the handshake, and what a
-- completed handshake does with the claim of the other end. What is printed is left out.
use noxtor_cli.Prelude.{
  ℕ, ◌+◌, ◌%◌, Bool, true, false, not, [], ◌∷◌, ◌++◌, Option, none, some, ltb, ◌==◌, if◌then◌else◌,
  length, take,
}
use noxtor_cli.Common.{Bytes, Err, Result, ok, err, u32_mod, bytes_eq, is_zero, max_handshake_len}
use noxtor_cli.Sodium.{Sodium}
use noxtor_cli.Noise.Cipher.{Session}
use noxtor_cli.Noise.Messages.{Handshake}
use noxtor_cli.Noise.Handshake.{handshake_read, handshake_write, handshake_split}
use noxtor_cli.Wire.{frame_header_encode, frame_magic, msg_ctrl}
use noxtor_cli.Peer.Types.{PeerEvent, Peer, App, Env, write, set_peer}
use noxtor_cli.Peer.Dispatch.{sm_dispatch}
use noxtor_cli.Onion.Address.{Ed25519}
use noxtor_cli.Onion.Claim.{Identity, hs_build_claim_payload, check_claim}

-- What the handler takes from outside: the signatures, the own identity, the ephemeral key that a
-- reply draws, how many bytes of a frame writev takes (`none` being its error), and the name and
-- key that db_get_contact has for an onion.
pub record Host : Type 0 where
  pub ed : Ed25519
  pub me : Identity
  pub ephemeral : Bytes
  pub writev : ℕ → Option ℕ
  pub contact : Bytes → Result (Bytes × Bytes)

-- sm_dispatch of an event to the slot; `true` goes on with the next frame of the buffer.
abbrev pub ends : Sodium → Env → ℕ → Bool → PeerEvent → App → App × Bool
ends S env i go ev a = ((sm_dispatch S env i a ev).0, go)

abbrev pub with_hs : App → ℕ → Handshake → App
with_hs a i hs = set_peer a i (record (a.peers i) { hs = some hs })

abbrev pub admitted : Env → Peer → Session → Peer
admitted env p s = record p {
  session = some s;
  hs = none;
  tx_seq = 0;
  rx_seq = 0;
  queue_flushed = false;
  peer_verified = true;
  tofu_was_zero_key = false;
  last_active = env.now;
}

-- The address goes to the slot after the event was dispatched.
abbrev pub named : ℕ → Bytes → App → App
named i onion a = record (set_peer a i (record (a.peers i) { peer_onion = take 62 onion })) {
  active_peer_onion = take 62 onion;
}

abbrev pub split_known : Sodium → Env → ℕ → App → Bytes → Handshake × Result Session → App × Bool
split_known S env i a onion (hs', err e) =
    ends S env i true PeerEvent.handshake_error (with_hs a i hs')
split_known S env i a onion (hs', ok s) = (
  named i onion
      (sm_dispatch S env i (set_peer a i (admitted env (a.peers i) s)) PeerEvent.session_ready).0,
  true,
)

-- The contact's key is the one of the handshake.
unfoldable pub known_peer : Sodium → Env → ℕ → App → Handshake → Bytes → App × Bool
known_peer S env i a hs onion =
    if env.session_alloc
    then split_known S env i a onion (handshake_split S hs)
    else ends S env i true PeerEvent.arena_fail
        (set_peer a i (record (a.peers i) { session = none }))

abbrev pub undecided : Env → ℕ → Bytes → Bytes → Bytes → Bool → Peer → Peer
undecided env fd onion name key zero_key p = record p {
  tofu_pending = true;
  tofu_peer_fd = some fd;
  tofu_was_zero_key = zero_key;
  peer_verified = false;
  tofu_onion = take 62 onion;
  tofu_name = take 64 name;
  tofu_new_key = key;
  tofu_start = env.now;
}

-- The user is asked about the key.
unfoldable pub ask_user : Sodium → Env → ℕ → ℕ → App → Bytes → Bytes → Bytes → Bool → App × Bool
ask_user S env i fd a onion name key zero_key =
    ends S env i true PeerEvent.handshake_done
      (set_peer a i (undecided env fd onion name key zero_key (a.peers i)))

-- "peer_%.8s"
abbrev pub peer_name : Bytes → Bytes
peer_name onion = 112 ∷ 101 ∷ 101 ∷ 114 ∷ 95 ∷ take 8 onion

-- The contact that is stored for the onion, if any. A contact without a key is a placeholder.
abbrev pub by_contact :
    Sodium → Env → ℕ → ℕ → App → Handshake → Bytes → Result (Bytes × Bytes) → App × Bool
by_contact S env i fd a hs onion (err e) = ask_user S env i fd a onion (peer_name onion) hs.rs false
by_contact S env i fd a hs onion (ok (name, key)) =
    if is_zero key
    then ask_user S env i fd a onion (if length name == 0 then peer_name onion else name) hs.rs true
    else if bytes_eq key hs.rs
    then known_peer S env i a hs onion
    else ask_user S env i fd a onion name hs.rs false

-- db_get_contact is not asked in ghost mode.
abbrev pub stored : Host → App → Bytes → Result (Bytes × Bytes)
stored H a onion = if a.ghost_mode then err Err.db else H.contact onion

abbrev pub on_claim : Sodium → Env → Host → ℕ → ℕ → App → Handshake → Result Bytes → App × Bool
on_claim S env H i fd a hs (err e) = ends S env i true PeerEvent.handshake_error a
on_claim S env H i fd a hs (ok onion) = by_contact S env i fd a hs onion (stored H a onion)

-- The payload of a handshake that is complete.
unfoldable pub completed : Sodium → Env → Host → ℕ → ℕ → App → Handshake → Bytes → App × Bool
completed S env H i fd a hs pl =
    if ltb hs.msg_index 3
    then (a, true)
    else on_claim S env H i fd a hs (check_claim H.ed pl hs.rs (a.peers i).connect_target)

unfoldable pub ctrl_frame : ℕ → Bytes → Bytes
ctrl_frame seq msg =
    frame_header_encode
      (record { magic = frame_magic; kind = msg_ctrl; seq = seq; len = length msg })
    ++ msg

abbrev pub wrote : ℕ → ℕ → Bytes → App → App
wrote fd n frame a = record a { effects = a.effects ++ write fd (take n frame) ∷ [] }

-- The answer of writev to the reply.
abbrev pub on_reply :
    Sodium → Env → Host → ℕ → ℕ → App → Handshake → Bytes → Bytes → Option ℕ → App × Bool
on_reply S env H i fd a hs pl frame none = ends S env i false PeerEvent.handshake_error a
on_reply S env H i fd a hs pl frame (some n) =
    if not (n == length frame)
    then ends S env i false PeerEvent.handshake_error (wrote fd n frame a)
    else completed S env H i fd
        (set_peer (wrote fd n frame a) i (record (a.peers i) {
          tx_seq = ((a.peers i).tx_seq + 1) % u32_mod;
          last_active = env.now;
        }))
        hs pl

abbrev pub send_reply :
    Sodium → Env → Host → ℕ → ℕ → App → Bytes → Handshake × Result Bytes → App × Bool
send_reply S env H i fd a pl (hs', err e) =
    ends S env i false PeerEvent.handshake_error (with_hs a i hs')
send_reply S env H i fd a pl (hs', ok msg) =
    let frame = ctrl_frame (a.peers i).tx_seq msg in
    on_reply S env H i fd (with_hs a i hs') hs' pl frame (H.writev (length frame))

abbrev pub with_claim :
    Sodium → Env → Host → ℕ → ℕ → App → Handshake → Bytes → Result Bytes → App × Bool
with_claim S env H i fd a hs pl (err e) = ends S env i false PeerEvent.handshake_error a
with_claim S env H i fd a hs pl (ok claim) =
    send_reply S env H i fd a pl (handshake_write S hs H.ephemeral claim max_handshake_len)

-- A message that was read is answered, unless it is the last one.
unfoldable pub after_read :
    Sodium → Env → Host → ℕ → ℕ → App → Handshake × Result Bytes → App × Bool
after_read S env H i fd a (hs', err e) =
    ends S env i false PeerEvent.handshake_error (with_hs a i hs')
after_read S env H i fd a (hs', ok pl) =
    if ltb hs'.msg_index 3
    then with_claim S env H i fd (with_hs a i hs') hs' pl (hs_build_claim_payload H.ed H.me)
    else completed S env H i fd (with_hs a i hs') hs' pl

-- The payload of a handshake message is the claim, of 127 bytes at most.
abbrev pub on_message : Sodium → Env → Host → ℕ → ℕ → App → Bytes → Option Handshake → App × Bool
on_message S env H i fd a payload none = (a, true)
on_message S env H i fd a payload (some hs) =
    if ltb hs.msg_index 3
    then after_read S env H i fd a (handshake_read S hs payload 127)
    else (a, true)

-- A CTRL frame where no handshake is running is dropped.
unfoldable pub on_ctrl : Sodium → Env → Host → ℕ → ℕ → App → Bytes → App × Bool
on_ctrl S env H i fd a payload = on_message S env H i fd a payload (a.peers i).hs
