-- ===== src/Peer/Buffer.antt =====
-- No event lengthens the receive buffer of its slot (src/state_machine.c).
use noxtor_cli.Prelude.{
  ℕ, zero, suc, ◌≤◌, arith, Bool, true, false, Option, none, some, length, if◌then◌else◌,
}
use noxtor_cli.Common.{Result, ok, err}
use noxtor_cli.Sodium.{Sodium}
use noxtor_cli.Noise.Cipher.{Session}
use noxtor_cli.Noise.Messages.{Handshake}
use noxtor_cli.Noise.Handshake.{handshake_split}
use noxtor_cli.Peer.Types.{PeerState, PeerEvent, Peer, App, Env, set_peer}
use noxtor_cli.Peer.Table.{Action, Transition, transitions, find}
use noxtor_cli.Peer.Actions.{
  action_cleanup, action_tofu_prompt, action_tofu_accept, action_nothing, finish_accept,
  allocate_session, accept_handshake, check_token, record_contact, stale,
}
use noxtor_cli.Peer.Dispatch.{run_action, settle, apply_row, dispatch_level, sm_dispatch}
use noxtor_cli.Peer.Slot.{slot_same}

abbrev pub Shrinks : ℕ → App → App → Type 0
Shrinks i a b = length (b.peers i).recv_buf ≤ length (a.peers i).recv_buf

pub same-Shrinks : (i : ℕ) (a : App) → Shrinks i a a
same-Shrinks i a = omega arith

pub then-Shrinks : (i : ℕ) (a b c : App) → Shrinks i a b → Shrinks i b c → Shrinks i a c
then-Shrinks i a b c h k = omega arith

pub slot-Shrinks :
    (i : ℕ) (a : App) (p : Peer)
    → length p.recv_buf ≤ length (a.peers i).recv_buf
    → Shrinks i a (set_peer a i p)
slot-Shrinks i a p h = rw (slot_same a i p) h

pub if-Shrinks :
    (i : ℕ) (a b c : App) (t : Bool)
    → Shrinks i a b
    → Shrinks i a c
    → Shrinks i a (if t then b else c)
if-Shrinks i a b c true h k = h
if-Shrinks i a b c false h k = k

abbrev Never : (ℕ → App → App) → ℕ → Type 0
Never f i = (a : App) → Shrinks i a (f i a)

cleanup-Shrinks : (i : ℕ) (a : App) → Shrinks i a (action_cleanup i a).0
unfolding action_cleanup
cleanup-Shrinks i a = ground arith

prompt-Shrinks : (i : ℕ) (a : App) → Shrinks i a (action_tofu_prompt i a).0
unfolding action_tofu_prompt
prompt-Shrinks i a = ground arith

module _ (S : Sodium) (env : Env) (f : ℕ → App → App) (i : ℕ) (never : Never f i) where
  finish-Shrinks :
      (a : App) (r : Handshake × Result Session) → Shrinks i a (finish_accept env f i a r).0
  finish-Shrinks a (hs, ok s) = ground arith
  finish-Shrinks a (hs, err e) =
      let b = set_peer a i (record (a.peers i) { hs = some hs; session = none }) in
      then-Shrinks i a b (f i b)
        (slot-Shrinks i a (record (a.peers i) { hs = some hs; session = none }) (omega arith))
        (never b)

  allocate-Shrinks :
      (a : App) (hs : Handshake) (got : Bool) → Shrinks i a (allocate_session S env f i a hs got).0
  allocate-Shrinks a hs true = finish-Shrinks a (handshake_split S hs)
  allocate-Shrinks a hs false =
      let b = set_peer a i (record (a.peers i) { session = none }) in
      then-Shrinks i a b (f i b)
        (slot-Shrinks i a (record (a.peers i) { session = none }) (omega arith)) (never b)

  contact-Shrinks : (a : App) (p : Peer) → Shrinks i a (record_contact a p)
  contact-Shrinks a p = ground arith

  handshake-Shrinks :
      (a : App) (o : Option Handshake) → Shrinks i a (accept_handshake S env f i a o).0
  handshake-Shrinks a none = same-Shrinks i a
  handshake-Shrinks a (some hs) =
      let b = record_contact a (a.peers i) in
      then-Shrinks i a b (allocate_session S env f i b hs env.session_alloc).0
        (contact-Shrinks a (a.peers i)) (allocate-Shrinks b hs env.session_alloc)

  token-Shrinks : (a : App) (b : Bool) → Shrinks i a (check_token S env f i a b).0
  token-Shrinks a true = same-Shrinks i a
  token-Shrinks a false = handshake-Shrinks a (a.peers i).hs

  run-Shrinks : (act : Action) (a : App) → Shrinks i a (run_action S env f act i a).0
  unfolding run_action action_nothing action_tofu_accept
  run-Shrinks Action.cleanup a = cleanup-Shrinks i a
  run-Shrinks Action.tofu_prompt a = prompt-Shrinks i a
  run-Shrinks Action.tofu_accept a = token-Shrinks a (stale (a.peers i) a)
  run-Shrinks _ a = same-Shrinks i a

  settle-Shrinks :
      (to : PeerState) (a : App) (r : App × Result (Unit {0}))
      → Shrinks i a r.0
      → Shrinks i a (settle to i r).0
  settle-Shrinks to a (b, ok u) h =
      then-Shrinks i a b (set_peer b i (record (b.peers i) { state = to })) h
        (slot-Shrinks i b (record (b.peers i) { state = to }) (omega arith))
  settle-Shrinks to a (b, err e) h = h

  row-Shrinks : (a : App) (t : Option Transition) → Shrinks i a (apply_row S env f i a t).0
  row-Shrinks a none = same-Shrinks i a
  row-Shrinks a (some t) =
      settle-Shrinks t.to a (run_action S env f t.action i a) (run-Shrinks t.action a)

level-Shrinks :
    (S : Sodium) (env : Env) (n i : ℕ) (a : App) (ev : PeerEvent)
    → Shrinks i a (dispatch_level S env n i a ev).0
unfolding dispatch_level
level-Shrinks S env zero i a ev = same-Shrinks i a
level-Shrinks S env (suc n) i a ev =
    row-Shrinks S env (λ j b. (dispatch_level S env n j b PeerEvent.peer_disconnected).0) i
      (λ b. level-Shrinks S env n i b PeerEvent.peer_disconnected) a
      (find (a.peers i).state ev transitions)

-- Whatever the event and the state.
pub dispatch-Shrinks :
    (S : Sodium) (env : Env) (i : ℕ) (a : App) (ev : PeerEvent)
    → Shrinks i a (sm_dispatch S env i a ev).0
unfolding sm_dispatch
dispatch-Shrinks S env i a ev = level-Shrinks S env 2 i a ev
