-- ===== src/Tests/Toy.antt =====
-- A libsodium small enough to compute with: a ciphertext is a tag of zeros and the plaintext, every
-- digest and shared secret is one constant. It has the laws, and none of the strength.
use noxtor_cli.Prelude.{
  ℕ, zero, suc, ◌+◌, ◌≡◌, refl, ap, subst, true, false, [], ◌∷◌, ◌++◌, Option, none, some, length,
  arith, length-append,
}
use noxtor_cli.Common.{Bytes, ok, zeros, mac_len}
use noxtor_cli.Sodium.{Sodium, SodiumLaws}
use noxtor_cli.Noise.Cipher.{Session, CipherState}
use noxtor_cli.Noise.Agreement.Primitives.{AllocOk}
use noxtor_cli.Peer.Types.{PeerState, Peer, App, Env}
use noxtor_cli.Peer.Actions.{no_rx, no_tx}
use noxtor_cli.Send.Segmented.{Kernel}

abbrev open_tag : ℕ → Bytes → Option Bytes
open_tag zero xs = some xs
open_tag (suc n) [] = none
open_tag (suc n) (x ∷ xs) = open_tag n xs

abbrev pub toy : Sodium
toy = record {
  aead_encrypt = λ k n a p. some (zeros 16 ++ p);
  aead_decrypt = λ k n a c. open_tag 16 c;
  blake2b = λ m. 7 ∷ zeros 63;
  scalarmult = λ a b. some (9 ∷ zeros 31);
  public_of = λ a. 5 ∷ zeros 31;
  hmac_alloc = λ k m. true;
  hkdf_alloc = λ k m. true;
}

abbrev payload : Option Bytes → Bytes
payload none = []
payload (some c) = c

sealed : (p c : Bytes) → some (zeros 16 ++ p) ≡ some c → zeros 16 ++ p ≡ c
sealed p c e = ap payload e

opened : (p c : Bytes) → some (zeros 16 ++ p) ≡ some c → open_tag 16 c ≡ some p
opened p c e = subst (λ d. open_tag 16 d ≡ some p) (sealed p c e) refl

sealed_length : (p c : Bytes) → some (zeros 16 ++ p) ≡ some c → length c ≡ length p + mac_len
sealed_length p c e =
    subst (λ d. length d ≡ length p + mac_len) (sealed p c e)
      (rw (length-append (zeros 16) p) (omega arith))

pub toy_laws : SodiumLaws toy
toy_laws = record {
  decrypt_encrypt = λ k n a p c e. opened p c e;
  encrypt_total = λ k n a p. (zeros 16 ++ p, refl);
  encrypt_length = λ k n a p c e. sealed_length p c e;
  blake2b_length = λ m. refl;
  public_length = λ a. refl;
  scalarmult_comm = λ a b. refl;
}

pub toy_alloc : AllocOk toy
toy_alloc = record { hmac = λ k m. refl; hkdf = λ k m. refl }

abbrev pub under : ℕ → CipherState
under key = record { k = key ∷ zeros 31; n = 0; has_key = true }

abbrev pub session : Session
session = record { tx = under 3; rx = under 4; remote_static = 5 ∷ zeros 31 }

abbrev pub other_end : Session
other_end = record { tx = under 4; rx = under 3; remote_static = 5 ∷ zeros 31 }

abbrev pub empty : Peer
empty = record {
  peer_onion = [];
  name = [];
  fd = none;
  session = none;
  hs = none;
  handshake_start = 0;
  tx_seq = 0;
  rx_seq = 0;
  queue_flushed = false;
  state = PeerState.idle;
  connect_target = [];
  tofu_pending = false;
  tofu_peer_fd = none;
  tofu_new_key = zeros 32;
  tofu_onion = [];
  tofu_name = [];
  tofu_start = 0;
  tofu_was_zero_key = false;
  tofu_epoch = 0;
  peer_verified = false;
  recv_buf = [];
  last_active = 0;
  rx_file = no_rx;
  tx_file = no_tx;
  unread_count = 0;
}

-- A connection on descriptor 6 with a session.
abbrev pub online : Peer
online = record empty {
  fd = some 6;
  session = some session;
  state = PeerState.active;
  name = 97 ∷ [];
}

abbrev pub no_peers : App
no_peers = record {
  peers = λ i. empty;
  active_peer_idx = none;
  active_peer_onion = [];
  tofu_epoch = 0;
  tofu_prompt_epoch = 0;
  tofu_prompt_fp = zeros 32;
  ghost_mode = false;
  downloads_dir_fd = none;
  effects = [];
}

-- The slots 0 and, if it is online, 1.
abbrev pub two : Peer → Peer → ℕ → Peer
two p q zero = p
two p q (suc zero) = q
two p q _ = empty

abbrev pub connected_app : App
connected_app = record no_peers { peers = two online empty; active_peer_idx = some 0 }

abbrev pub env : Env
env = record { session_alloc = true; db_add_contact = ok tt; now = 100 }

abbrev pub kernel : Kernel
kernel = record { buffers = true; writev = λ k n. some n }

-- It takes one byte of every frame.
abbrev pub stingy : Kernel
stingy = record { buffers = true; writev = λ k n. some 1 }
