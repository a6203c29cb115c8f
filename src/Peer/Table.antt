-- ===== src/Peer/Table.antt =====
-- src/state_machine.c, the transition table and its linear search.
use noxtor_cli.Prelude.{ℕ, Bool, ◌&&◌, List, [], ◌∷◌, Option, none, some, ◌==◌, if◌then◌else◌}
use noxtor_cli.Peer.Types.{PeerState, PeerEvent}

-- The names of the action functions.
pub data Action : Type 0 where
  cleanup connect accept hs_process tofu_prompt tofu_accept session_up file_begin : Action
  file_begin_rx file_end : Action

-- state_transition_t
pub record Transition : Type 0 where
  pub from : PeerState
  pub event : PeerEvent
  pub to : PeerState
  pub action : Action

-- The values of the two enums.
abbrev pub state_code : PeerState → ℕ
state_code PeerState.idle = 0
state_code PeerState.connecting = 1
state_code PeerState.handshake_init = 2
state_code PeerState.handshake_resp = 3
state_code PeerState.tofu_pending = 4
state_code PeerState.active = 5
state_code PeerState.file_tx = 6
state_code PeerState.file_rx = 7

abbrev pub event_code : PeerEvent → ℕ
event_code PeerEvent.connect_cmd = 0
event_code PeerEvent.peer_accepted = 1
event_code PeerEvent.handshake_msg = 2
event_code PeerEvent.handshake_done = 3
event_code PeerEvent.session_ready = 4
event_code PeerEvent.tofu_accepted = 5
event_code PeerEvent.tofu_rejected = 6
event_code PeerEvent.peer_disconnected = 7
event_code PeerEvent.handshake_timeout = 8
event_code PeerEvent.handshake_error = 9
event_code PeerEvent.file_start = 10
event_code PeerEvent.file_rx_start = 11
event_code PeerEvent.file_done = 12
event_code PeerEvent.rate_limit = 13
event_code PeerEvent.seq_mismatch = 14
event_code PeerEvent.arena_fail = 15
event_code PeerEvent.tor_died = 16

abbrev row : PeerState → PeerEvent → PeerState → Action → Transition
row f e t a = record { from = f; event = e; to = t; action = a }

unfoldable pub transitions : List Transition
transitions =
    row PeerState.idle PeerEvent.connect_cmd PeerState.handshake_init Action.connect
    ∷ row PeerState.idle PeerEvent.peer_accepted PeerState.handshake_resp Action.accept
    ∷ row PeerState.handshake_init PeerEvent.handshake_msg PeerState.handshake_init
        Action.hs_process
    ∷ row PeerState.handshake_resp PeerEvent.handshake_msg PeerState.handshake_resp
        Action.hs_process
    ∷ row PeerState.handshake_init PeerEvent.session_ready PeerState.active Action.session_up
    ∷ row PeerState.handshake_resp PeerEvent.session_ready PeerState.active Action.session_up
    ∷ row PeerState.handshake_init PeerEvent.handshake_done PeerState.tofu_pending
        Action.tofu_prompt
    ∷ row PeerState.handshake_resp PeerEvent.handshake_done PeerState.tofu_pending
        Action.tofu_prompt
    ∷ row PeerState.tofu_pending PeerEvent.tofu_accepted PeerState.active Action.tofu_accept
    ∷ row PeerState.tofu_pending PeerEvent.tofu_rejected PeerState.idle Action.cleanup
    ∷ row PeerState.active PeerEvent.file_start PeerState.file_tx Action.file_begin
    ∷ row PeerState.active PeerEvent.file_rx_start PeerState.file_rx Action.file_begin_rx
    ∷ row PeerState.file_tx PeerEvent.file_done PeerState.active Action.file_end
    ∷ row PeerState.file_rx PeerEvent.file_done PeerState.active Action.file_end
    ∷ row PeerState.connecting PeerEvent.peer_disconnected PeerState.idle Action.cleanup
    ∷ row PeerState.handshake_init PeerEvent.peer_disconnected PeerState.idle Action.cleanup
    ∷ row PeerState.handshake_resp PeerEvent.peer_disconnected PeerState.idle Action.cleanup
    ∷ row PeerState.tofu_pending PeerEvent.peer_disconnected PeerState.idle Action.cleanup
    ∷ row PeerState.active PeerEvent.peer_disconnected PeerState.idle Action.cleanup
    ∷ row PeerState.file_tx PeerEvent.peer_disconnected PeerState.idle Action.cleanup
    ∷ row PeerState.file_rx PeerEvent.peer_disconnected PeerState.idle Action.cleanup
    ∷ row PeerState.handshake_init PeerEvent.handshake_timeout PeerState.idle Action.cleanup
    ∷ row PeerState.handshake_resp PeerEvent.handshake_timeout PeerState.idle Action.cleanup
    ∷ row PeerState.handshake_init PeerEvent.handshake_error PeerState.idle Action.cleanup
    ∷ row PeerState.handshake_resp PeerEvent.handshake_error PeerState.idle Action.cleanup
    ∷ row PeerState.active PeerEvent.seq_mismatch PeerState.idle Action.cleanup
    ∷ row PeerState.file_tx PeerEvent.seq_mismatch PeerState.idle Action.cleanup
    ∷ row PeerState.file_rx PeerEvent.seq_mismatch PeerState.idle Action.cleanup
    ∷ row PeerState.handshake_init PeerEvent.arena_fail PeerState.idle Action.cleanup
    ∷ row PeerState.handshake_resp PeerEvent.arena_fail PeerState.idle Action.cleanup
    ∷ row PeerState.idle PeerEvent.tor_died PeerState.idle Action.cleanup
    ∷ row PeerState.connecting PeerEvent.tor_died PeerState.idle Action.cleanup
    ∷ row PeerState.handshake_init PeerEvent.tor_died PeerState.idle Action.cleanup
    ∷ row PeerState.handshake_resp PeerEvent.tor_died PeerState.idle Action.cleanup
    ∷ row PeerState.tofu_pending PeerEvent.tor_died PeerState.idle Action.cleanup
    ∷ row PeerState.active PeerEvent.tor_died PeerState.idle Action.cleanup
    ∷ row PeerState.file_tx PeerEvent.tor_died PeerState.idle Action.cleanup
    ∷ row PeerState.file_rx PeerEvent.tor_died PeerState.idle Action.cleanup
    ∷ row PeerState.handshake_init PeerEvent.rate_limit PeerState.idle Action.cleanup
    ∷ row PeerState.handshake_resp PeerEvent.rate_limit PeerState.idle Action.cleanup
    ∷ []

abbrev pub matches : PeerState → PeerEvent → Transition → Bool
matches s e t = state_code t.from == state_code s && event_code t.event == event_code e

-- The first row that matches.
unfoldable pub find : PeerState → PeerEvent → List Transition → Option Transition
find s e [] = none
find s e (t ∷ ts) = if matches s e t then some t else find s e ts
