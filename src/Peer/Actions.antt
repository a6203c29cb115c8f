-- ===== src/Peer/Actions.antt =====
-- src/state_machine.c, the action functions. A slot is named by its index, so a write through
-- `ps` is a write to the array of slots. Messages on the screen and in the log are left out.
use noxtor_cli.Prelude.{
  ℕ, ◌+◌, ◌%◌, Bool, true, false, ◌||◌, not, List, [], ◌∷◌, ◌++◌, Option, none, some, ◌==◌,
  if◌then◌else◌, take,
}
use noxtor_cli.Common.{Bytes, Err, Result, ok, err, zeros, key_len, u64_mod, bytes_eq}
use noxtor_cli.Sodium.{Sodium}
use noxtor_cli.Noise.Cipher.{Session}
use noxtor_cli.Noise.Messages.{Handshake}
use noxtor_cli.Noise.Handshake.{handshake_split}
use noxtor_cli.Peer.Types.{
  Peer, App, Env, Effect, FileRx, FileTx, epoll_remove, close, unlink, add_contact, set_peer,
  update,
}

-- A transfer after sodium_memzero, with its descriptor set to -1.
abbrev pub no_rx : FileRx
no_rx = record {
  active = false;
  fd = none;
  filename = [];
  expected_size = 0;
  received_bytes = 0;
  expected_hash = zeros 32;
  hashed = [];
  last_chunk = 0;
  local_name = [];
}

abbrev pub no_tx : FileTx
no_tx = record {
  active = false;
  fd = none;
  filename = [];
  total_size = 0;
  sent_bytes = 0;
  hash = zeros 32;
  plain_buf = false;
  tx_buf = [];
  tx_offset = 0;
  current_chunk_size = 0;
}

abbrev pub close_fd : Option ℕ → List Effect
close_fd none = []
close_fd (some fd) = close fd ∷ []

abbrev pub close_peer : Option ℕ → List Effect
close_peer none = []
close_peer (some fd) = epoll_remove fd ∷ close fd ∷ []

-- unlinkat of a partly received file, where the directory is open and the name is not empty.
abbrev pub unlink_partial : Option ℕ → Bytes → List Effect
unlink_partial none name = []
unlink_partial (some dir) [] = []
unlink_partial (some dir) (c ∷ cs) = unlink (c ∷ cs) ∷ []

abbrev pub drop_rx : Option ℕ → FileRx → List Effect
drop_rx dir f = if f.active then close_fd f.fd ++ unlink_partial dir f.local_name else []

abbrev pub drop_tx : FileTx → List Effect
drop_tx f = if f.active then close_fd f.fd else []

-- Everything that action_cleanup writes to the slot.
unfoldable pub cleaned : Peer → Peer
cleaned p = record p {
  fd = none;
  hs = none;
  session = none;
  tx_seq = 0;
  rx_seq = 0;
  peer_onion = [];
  connect_target = [];
  tofu_pending = false;
  tofu_peer_fd = none;
  tofu_was_zero_key = false;
  peer_verified = false;
  last_active = 0;
  tofu_onion = [];
  tofu_name = [];
  tofu_new_key = zeros key_len;
  queue_flushed = false;
  rx_file = if p.rx_file.active then no_rx else p.rx_file;
  tx_file = if p.tx_file.active then no_tx else p.tx_file;
  recv_buf = [];
  name = [];
  unread_count = 0;
}

-- Whether the slot is the active one.
abbrev pub is_active : Option ℕ → ℕ → Bool
is_active none i = false
is_active (some j) i = j == i

unfoldable pub action_cleanup : ℕ → App → App × Result (Unit {0})
unfolding cleaned
action_cleanup i a =
    let p = a.peers i in
    (
      record a {
        peers = update a.peers i (cleaned p);
        effects =
            a.effects
            ++ (close_peer p.fd ++ (drop_rx a.downloads_dir_fd p.rx_file ++ drop_tx p.tx_file));
        active_peer_idx = if is_active a.active_peer_idx i then none else a.active_peer_idx;
        active_peer_onion = if is_active a.active_peer_idx i then [] else a.active_peer_onion;
      },
      ok tt,
    )

-- `++state->tofu_epoch` is a uint64_t. A prompt that is not answered yet is not overwritten.
unfoldable pub action_tofu_prompt : ℕ → App → App × Result (Unit {0})
action_tofu_prompt i a =
    let p = a.peers i in
    let epoch = (a.tofu_epoch + 1) % u64_mod in
    (
      record a {
        tofu_epoch = epoch;
        peers = update a.peers i (record p { tofu_epoch = epoch });
        tofu_prompt_epoch = if a.tofu_prompt_epoch == 0 then epoch else a.tofu_prompt_epoch;
        tofu_prompt_fp = if a.tofu_prompt_epoch == 0 then p.tofu_new_key else a.tofu_prompt_fp;
      },
      ok tt,
    )

-- The token of the slot is not the one that the user was shown.
unfoldable pub stale : Peer → App → Bool
stale p a =
    not (p.tofu_epoch == a.tofu_prompt_epoch) || not (bytes_eq p.tofu_new_key a.tofu_prompt_fp)

abbrev pub record_contact : App → Peer → App
record_contact a p = if a.ghost_mode then a else record a {
  effects = a.effects ++ add_contact p.tofu_onion p.tofu_name p.tofu_new_key ∷ [];
}

-- The slot of an accepted peer.
abbrev pub established : Env → Peer → Session → Peer
established env p s = record p {
  session = some s;
  hs = none;
  tx_seq = 0;
  rx_seq = 0;
  queue_flushed = false;
  peer_verified = false;
  last_active = env.now;
  tofu_pending = false;
  peer_onion = take 62 p.tofu_onion;
  name = take 64 p.tofu_name;
}

abbrev pub finish_accept :
    Env → (ℕ → App → App) → ℕ → App → Handshake × Result Session → App × Result (Unit {0})
finish_accept env disconnect i a (hs', ok s) =
    let p = established env (a.peers i) s in
    (record a { peers = update a.peers i p; active_peer_onion = take 62 p.peer_onion }, ok tt)
finish_accept env disconnect i a (hs', err e) = (
  disconnect i (set_peer a i (record (a.peers i) { hs = some hs'; session = none })),
  err Err.proto,
)

-- Whether sodium_malloc gave the session decides.
abbrev pub allocate_session :
    Sodium → Env → (ℕ → App → App) → ℕ → App → Handshake → Bool → App × Result (Unit {0})
allocate_session S env disconnect i a hs true =
    finish_accept env disconnect i a (handshake_split S hs)
allocate_session S env disconnect i a hs false =
    (disconnect i (set_peer a i (record (a.peers i) { session = none })), err Err.alloc)

abbrev pub accept_handshake :
    Sodium → Env → (ℕ → App → App) → ℕ → App → Option Handshake → App × Result (Unit {0})
accept_handshake S env disconnect i a none = (a, err Err.proto)
accept_handshake S env disconnect i a (some hs) =
    allocate_session S env disconnect i (record_contact a (a.peers i)) hs env.session_alloc

-- Whether the token is stale decides.
abbrev pub check_token : Sodium → Env → (ℕ → App → App) → ℕ → App → Bool → App × Result (Unit {0})
check_token S env disconnect i a true = (a, err Err.proto)
check_token S env disconnect i a false = accept_handshake S env disconnect i a (a.peers i).hs

-- `disconnect` is sm_dispatch of EV_PEER_DISCONNECTED to the slot. A failure of db_add_contact
-- is only reported.
unfoldable pub action_tofu_accept :
    Sodium → Env → (ℕ → App → App) → ℕ → App → App × Result (Unit {0})
action_tofu_accept S env disconnect i a = check_token S env disconnect i a (stale (a.peers i) a)

-- action_connect, action_accept, action_hs_process, action_session_up, action_file_begin,
-- action_file_end and action_file_begin_rx
unfoldable pub action_nothing : ℕ → App → App × Result (Unit {0})
action_nothing i a = (a, ok tt)
