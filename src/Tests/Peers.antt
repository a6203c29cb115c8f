-- ===== src/Tests/Peers.antt =====
-- The theorems on src/state_machine.c and tofu_user_response at concrete inputs.
use noxtor_cli.Prelude.{◌≡◌, refl, true, false, [], ◌∷◌, some, arith}
use noxtor_cli.Common.{ok, zeros, bytes_eq}
use noxtor_cli.Noise.Symmetric.{symmetric_split, hkdf_blake2b, noise_hmac_blake2b_64, hmac_value}
use noxtor_cli.Noise.Messages.{Handshake}
use noxtor_cli.Noise.Handshake.{handshake_split, handshake_is_complete}
use noxtor_cli.Peer.Types.{PeerState, PeerEvent, Peer, App}
use noxtor_cli.Peer.Table.{find, transitions}
use noxtor_cli.Peer.TableLaws.{next, table-next, Agrees}
use noxtor_cli.Peer.Actions.{stale, action_tofu_accept}
use noxtor_cli.Peer.Dispatch.{
  dispatch_level, run_action, sm_dispatch, tofu_user_response, pending, answer,
}
use noxtor_cli.Peer.Levels.{two_levels}
use noxtor_cli.Peer.Frame.{sm_dispatch_apart}
use noxtor_cli.Peer.Cleanup.{IsClean, Releases, idle-IsClean}
use noxtor_cli.Peer.Prompt.{SamePrompt, prompt_kept, AcceptsShown, accepts_shown}
use noxtor_cli.Tests.Toy.{toy, under, empty, no_peers, two, connected_app, env}

table-next_example : Agrees PeerState.file_rx PeerEvent.file_done
table-next_example = table-next PeerState.file_rx PeerEvent.file_done

two_levels_example :
    dispatch_level toy env 5 0 connected_app PeerEvent.peer_disconnected
    ≡ sm_dispatch toy env 0 connected_app PeerEvent.peer_disconnected
two_levels_example = two_levels toy env 3 0 connected_app PeerEvent.peer_disconnected

sm_dispatch_apart_example :
    (sm_dispatch toy env 0 connected_app PeerEvent.rate_limit).0.peers 1 ≡ empty
sm_dispatch_apart_example =
    sm_dispatch_apart toy env 0 1 connected_app PeerEvent.rate_limit (λ e. omega arith)

disconnects : next PeerState.active PeerEvent.peer_disconnected ≡ some PeerState.idle
unfolding next
disconnects = refl

idle-IsClean_example :
    ((sm_dispatch toy env 0 connected_app PeerEvent.peer_disconnected).1 ≡ ok tt)
    × (((sm_dispatch toy env 0 connected_app PeerEvent.peer_disconnected).0.peers 0).state
        ≡ PeerState.idle)
    × IsClean (sm_dispatch toy env 0 connected_app PeerEvent.peer_disconnected).0 0
    × Releases connected_app (sm_dispatch toy env 0 connected_app PeerEvent.peer_disconnected).0 0
idle-IsClean_example = idle-IsClean toy env 0 connected_app PeerEvent.peer_disconnected disconnects

-- A handshake of three messages, ready to be split.
abbrev finished : Handshake
finished = record {
  ss = record { ck = 7 ∷ zeros 63; h = zeros 64; cs = under 7 };
  s = zeros 32;
  s_pub = zeros 32;
  e = zeros 32;
  e_pub = zeros 32;
  rs = 5 ∷ zeros 31;
  re = zeros 32;
  initiator = true;
  msg_index = 3;
  split_done = false;
  failed = false;
}

-- A connection whose key the user has to decide on, under the number 1.
abbrev asking : Peer
asking = record empty {
  fd = some 6;
  hs = some finished;
  state = PeerState.tofu_pending;
  tofu_pending = true;
  tofu_new_key = 5 ∷ zeros 31;
  tofu_onion = 97 ∷ [];
  tofu_epoch = 1;
}

abbrev asked : App
asked = record no_peers {
  peers = two asking empty;
  tofu_epoch = 1;
  tofu_prompt_epoch = 1;
  tofu_prompt_fp = 5 ∷ zeros 31;
}

accepted_active : ((tofu_user_response toy env asked true).peers 0).state ≡ PeerState.active
unfolding tofu_user_response pending answer sm_dispatch dispatch_level find transitions run_action
    action_tofu_accept stale bytes_eq handshake_split handshake_is_complete symmetric_split
    hkdf_blake2b noise_hmac_blake2b_64 hmac_value
accepted_active = refl

accepts_shown_example : AcceptsShown asked 0
accepts_shown_example = accepts_shown toy env asked 0 (λ e. cc) accepted_active

prompt_kept_example : SamePrompt asked (sm_dispatch toy env 1 asked PeerEvent.peer_accepted).0
prompt_kept_example = prompt_kept toy env 1 asked PeerEvent.peer_accepted (λ e. omega arith)
