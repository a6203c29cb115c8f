-- ===== src/Receive/Timeouts.antt =====
-- The timeouts of the slots in event_loop of src/event_loop.c, and file_transfer_chunk_expired of
-- src/file_transfer.c. Of a time the seconds are compared.
use noxtor_cli.Prelude.{
  ℕ, zero, suc, ◌+◌, Bool, true, false, ◌||◌, ◌&&◌, ◌++◌, Option, none, some, ltb, ◌==◌, length,
  if◌then◌else◌,
}
use noxtor_cli.Sodium.{Sodium}
use noxtor_cli.Peer.Types.{PeerState, PeerEvent, Peer, App, Env, max_peers}
use noxtor_cli.Peer.Table.{state_code}
use noxtor_cli.Peer.TableLaws.{shaking, is_up}
use noxtor_cli.Peer.Actions.{no_rx, close_fd, unlink_partial}
use noxtor_cli.Peer.Dispatch.{sm_dispatch, is_pending}
use noxtor_cli.File.Receive.{emit, set_rx}
use noxtor_cli.Receive.Room.{recv_buf_capacity}

abbrev pub handshake_timeout_sec : ℕ
handshake_timeout_sec = 30

abbrev pub tofu_timeout_sec : ℕ
tofu_timeout_sec = 120

abbrev pub file_chunk_timeout_sec : ℕ
file_chunk_timeout_sec = 60

abbrev pub peer_idle_timeout_sec : ℕ
peer_idle_timeout_sec = 3600

abbrev pub halfframe_timeout_sec : ℕ
halfframe_timeout_sec = 60

-- now - start > timeout, where the clock does not run backwards.
unfoldable pub file_transfer_chunk_expired : ℕ → ℕ → ℕ → Bool
file_transfer_chunk_expired last now timeout = ltb (last + timeout) now

unfoldable pub check_handshake : Sodium → Env → ℕ → App → App
check_handshake S env i a =
    if shaking (a.peers i).state
      && ltb ((a.peers i).handshake_start + handshake_timeout_sec) env.now
    then (sm_dispatch S env i a PeerEvent.handshake_timeout).0
    else a

unfoldable pub check_tofu : Sodium → Env → ℕ → App → App
check_tofu S env i a =
    if is_pending (a.peers i).state && ltb ((a.peers i).tofu_start + tofu_timeout_sec) env.now
    then (sm_dispatch S env i a PeerEvent.peer_disconnected).0
    else a

abbrev pub is_receiving : PeerState → Bool
is_receiving s = state_code s == 7

-- The transfer is dropped; the state leaves ST_FILE_RX.
unfoldable pub drop_file : Sodium → Env → ℕ → App → App
drop_file S env i a =
    let f = (a.peers i).rx_file in
    let b =
      set_rx (emit a (unlink_partial a.downloads_dir_fd f.local_name ++ close_fd f.fd)) i no_rx in
    if is_receiving (b.peers i).state then (sm_dispatch S env i b PeerEvent.file_done).0 else b

unfoldable pub check_chunk : Sodium → Env → ℕ → App → App
check_chunk S env i a =
    if (a.peers i).rx_file.active
      && file_transfer_chunk_expired (a.peers i).rx_file.last_chunk env.now file_chunk_timeout_sec
    then drop_file S env i a
    else a

-- A part of a frame waits for its rest.
abbrev pub half_frame : Peer → Bool
half_frame p = ltb 0 (length p.recv_buf) && ltb (length p.recv_buf) recv_buf_capacity

unfoldable pub check_idle : Sodium → Env → ℕ → App → App
check_idle S env i a =
    if is_up (a.peers i).state
      && (ltb ((a.peers i).last_active + peer_idle_timeout_sec) env.now
          || (half_frame (a.peers i)
              && ltb ((a.peers i).last_active + halfframe_timeout_sec) env.now))
    then (sm_dispatch S env i a PeerEvent.peer_disconnected).0
    else a

abbrev pub is_free : Peer → Bool
is_free p = is_none p.fd && state_code p.state == 0
  where
    is_none : Option ℕ → Bool
    is_none none = true
    is_none (some fd) = false

unfoldable pub check_slot : Sodium → Env → ℕ → App → App
check_slot S env i a =
    if is_free (a.peers i)
    then a
    else check_idle S env i (check_chunk S env i (check_tofu S env i (check_handshake S env i a)))

-- The slots below n in their order.
unfoldable pub check_below : Sodium → Env → ℕ → App → App
check_below S env zero a = a
check_below S env (suc n) a = check_slot S env n (check_below S env n a)

unfoldable pub check_timeouts : Sodium → Env → App → App
check_timeouts S env a = check_below S env max_peers a
