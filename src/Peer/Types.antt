-- ===== src/Peer/Types.antt =====
-- include/types.h: a peer connection and the part of the application state that the peers share.
-- A file descriptor below 0 is `none`; a NULL pointer is `none`; a character array is the text up
-- to its NUL; the receive buffer is the bytes up to recv_pos; a time is a number of seconds.
use noxtor_cli.Prelude.{ℕ, Bool, List, Option, ◌==◌, if◌then◌else◌}
use noxtor_cli.Common.{Bytes, Result}
use noxtor_cli.Noise.Cipher.{Session}
use noxtor_cli.Noise.Messages.{Handshake}

-- peer_state_t
pub data PeerState : Type 0 where
  idle connecting handshake_init handshake_resp tofu_pending active file_tx file_rx : PeerState

-- peer_event_t
pub data PeerEvent : Type 0 where
  connect_cmd peer_accepted handshake_msg handshake_done session_ready : PeerEvent
  tofu_accepted tofu_rejected peer_disconnected handshake_timeout handshake_error : PeerEvent
  file_start file_rx_start file_done rate_limit seq_mismatch arena_fail tor_died : PeerEvent

-- struct file_rx_state; the state of the hash is the bytes hashed so far.
pub record FileRx : Type 0 where
  pub active : Bool
  pub fd : Option ℕ
  pub filename : Bytes
  pub expected_size : ℕ
  pub received_bytes : ℕ
  pub expected_hash : Bytes
  pub hashed : Bytes
  pub last_chunk : ℕ
  pub local_name : Bytes

-- struct file_tx_state; `tx_buf` is the frame up to tx_len, and `plain_buf` tells whether the
-- plaintext buffer is allocated.
pub record FileTx : Type 0 where
  pub active : Bool
  pub fd : Option ℕ
  pub filename : Bytes
  pub total_size : ℕ
  pub sent_bytes : ℕ
  pub hash : Bytes
  pub plain_buf : Bool
  pub tx_buf : Bytes
  pub tx_offset : ℕ
  pub current_chunk_size : ℕ

-- struct peer_session
pub record Peer : Type 0 where
  pub peer_onion : Bytes
  pub name : Bytes
  pub fd : Option ℕ
  pub session : Option Session
  pub hs : Option Handshake
  pub handshake_start : ℕ
  pub tx_seq : ℕ
  pub rx_seq : ℕ
  pub queue_flushed : Bool
  pub state : PeerState
  pub connect_target : Bytes
  pub tofu_pending : Bool
  pub tofu_peer_fd : Option ℕ
  pub tofu_new_key : Bytes
  pub tofu_onion : Bytes
  pub tofu_name : Bytes
  pub tofu_start : ℕ
  pub tofu_was_zero_key : Bool
  pub tofu_epoch : ℕ
  pub peer_verified : Bool
  pub recv_buf : Bytes
  pub last_active : ℕ
  pub rx_file : FileRx
  pub tx_file : FileTx
  pub unread_count : ℕ

-- What the program does to the outside, in order.
pub data Effect : Type 0 where
  epoll_remove close : ℕ → Effect
  unlink : Bytes → Effect
  add_contact : Bytes → Bytes → Bytes → Effect
  write : ℕ → Bytes → Effect
  fsync : ℕ → Effect
  file_received : Bytes → Effect
  incoming : Bytes → Effect
  delete_queued : ℕ → Effect

-- struct app_state. The 16 slots are a function of their index.
pub record App : Type 0 where
  pub peers : ℕ → Peer
  pub active_peer_idx : Option ℕ
  pub active_peer_onion : Bytes
  pub tofu_epoch : ℕ
  pub tofu_prompt_epoch : ℕ
  pub tofu_prompt_fp : Bytes
  pub ghost_mode : Bool
  pub downloads_dir_fd : Option ℕ
  pub effects : List Effect

abbrev pub max_peers : ℕ
max_peers = 16

abbrev pub update {ℓ} : {A : Type ℓ} → (ℕ → A) → ℕ → A → ℕ → A
update f i v j = if j == i then v else f j

-- A write through the pointer to a slot.
abbrev pub set_peer : App → ℕ → Peer → App
set_peer a i p = record a { peers = update a.peers i p }

-- What a call takes from outside: whether sodium_malloc of a session succeeds, the answer of
-- db_add_contact, and the monotonic clock.
pub record Env : Type 0 where
  pub session_alloc : Bool
  pub db_add_contact : Result (Unit {0})
  pub now : ℕ
