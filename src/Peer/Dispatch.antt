-- ===== src/Peer/Dispatch.antt =====
-- src/state_machine.c, sm_dispatch, and src/stdin_handler.c, tofu_user_response.
use noxtor_cli.Prelude.{
  ℕ, zero, suc, ◌+◌, Bool, true, false, Option, none, some, ◌==◌, ltb, if◌then◌else◌,
}
use noxtor_cli.Common.{Err, Result, ok, err}
use noxtor_cli.Sodium.{Sodium}
use noxtor_cli.Peer.Types.{PeerState, PeerEvent, Peer, App, Env, set_peer, max_peers}
use noxtor_cli.Peer.Table.{Action, Transition, transitions, find, state_code}
use noxtor_cli.Peer.Actions.{
  action_cleanup, action_tofu_prompt, action_tofu_accept, action_nothing, stale,
}

unfoldable pub run_action :
    Sodium → Env → (ℕ → App → App) → Action → ℕ → App → App × Result (Unit {0})
run_action S env disconnect Action.cleanup i a = action_cleanup i a
run_action S env disconnect Action.tofu_prompt i a = action_tofu_prompt i a
run_action S env disconnect Action.tofu_accept i a = action_tofu_accept S env disconnect i a
run_action S env disconnect _ i a = action_nothing i a

-- The state changes after a successful action only.
abbrev pub settle : PeerState → ℕ → App × Result (Unit {0}) → App × Result (Unit {0})
settle to i (a, ok u) = (set_peer a i (record (a.peers i) { state = to }), ok u)
settle to i (a, err e) = (a, err e)

abbrev pub apply_row :
    Sodium → Env → (ℕ → App → App) → ℕ → App → Option Transition → App × Result (Unit {0})
apply_row S env disconnect i a none = (a, err Err.state)
apply_row S env disconnect i a (some t) = settle t.to i (run_action S env disconnect t.action i a)

-- sm_dispatch, with a bound on how deep it calls itself.
unfoldable pub dispatch_level : Sodium → Env → ℕ → ℕ → App → PeerEvent → App × Result (Unit {0})
dispatch_level S env zero i a ev = (a, err Err.state)
dispatch_level S env (suc level) i a ev =
    apply_row S env (λ j b. (dispatch_level S env level j b PeerEvent.peer_disconnected).0) i a
      (find (a.peers i).state ev transitions)

-- Two levels are enough: see Levels.
unfoldable pub sm_dispatch : Sodium → Env → ℕ → App → PeerEvent → App × Result (Unit {0})
sm_dispatch S env = dispatch_level S env 2

unfoldable pub sm_dispatch_active : Sodium → Env → App → PeerEvent → App × Result (Unit {0})
sm_dispatch_active S env a ev = elim a.active_peer_idx [
  | none ↦ (a, err Err.not_found)
  | some i ↦ if ltb i max_peers then sm_dispatch S env i a ev else (a, err Err.not_found)
]

abbrev pub is_pending : PeerState → Bool
is_pending s = state_code s == 4

-- The loop over the slots below n: how many await an answer, and the last of them.
unfoldable pub pending : ℕ → (ℕ → Peer) → ℕ × Option ℕ
pending zero peers = (0, none)
pending (suc n) peers =
    let (count, last) = pending n peers in
    if is_pending (peers n).state then (count + 1, some n) else (count, last)

abbrev pub close_prompt : App → App
close_prompt a = record a { tofu_prompt_epoch = 0 }

abbrev pub after_accept : Sodium → Env → ℕ → App × Result (Unit {0}) → App
after_accept S env i (a, ok u) = close_prompt a
after_accept S env i (a, err e) =
    (sm_dispatch S env i (close_prompt a) PeerEvent.peer_disconnected).0

abbrev pub re_arm : App → Peer → App
re_arm a p = record a { tofu_prompt_epoch = p.tofu_epoch; tofu_prompt_fp = p.tofu_new_key }

-- The answer to the one prompt that is open.
unfoldable pub answer : Sodium → Env → App → Bool → ℕ → App
answer S env a true i =
    if stale (a.peers i) a
    then re_arm a (a.peers i)
    else after_accept S env i (sm_dispatch S env i a PeerEvent.tofu_accepted)
answer S env a false i = (sm_dispatch S env i (close_prompt a) PeerEvent.tofu_rejected).0

abbrev pub answer_one : Sodium → Env → App → Bool → ℕ × Option ℕ → App
answer_one S env a accept (count, none) = a
answer_one S env a accept (count, some i) = if ltb 1 count then a else answer S env a accept i

unfoldable pub tofu_user_response : Sodium → Env → App → Bool → App
tofu_user_response S env a accept = answer_one S env a accept (pending max_peers a.peers)
