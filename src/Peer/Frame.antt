-- ===== src/Peer/Frame.antt =====
-- One connection's events do not touch the others (src/state_machine.c).
use noxtor_cli.Prelude.{ℕ, zero, suc, ◌≡◌, ◌≢◌, refl, ◌∙◌, Option, none, some, arith}
use noxtor_cli.Common.{Result, ok, err}
use noxtor_cli.Sodium.{Sodium}
use noxtor_cli.Peer.Types.{PeerState, PeerEvent, App, Env}
use noxtor_cli.Peer.Table.{Action, Transition, transitions, find}
use noxtor_cli.Peer.Actions.{action_cleanup, action_tofu_prompt, action_tofu_accept, action_nothing}
use noxtor_cli.Peer.Dispatch.{run_action, settle, apply_row, dispatch_level, sm_dispatch}

abbrev Apart : (ℕ → App → App) → ℕ → ℕ → Type 0
Apart f i j = (a : App) → (f i a).peers j ≡ a.peers j

cleanup_apart : (i j : ℕ) (a : App) → j ≢ i → (action_cleanup i a).0.peers j ≡ a.peers j
unfolding action_cleanup
cleanup_apart i j a h = ground arith

prompt_apart : (i j : ℕ) (a : App) → j ≢ i → (action_tofu_prompt i a).0.peers j ≡ a.peers j
unfolding action_tofu_prompt
prompt_apart i j a h = ground arith

accept-Apart :
    (S : Sodium) (env : Env) (f : ℕ → App → App) (i j : ℕ) (a : App)
    → j ≢ i
    → Apart f i j
    → (action_tofu_accept S env f i a).0.peers j ≡ a.peers j
unfolding action_tofu_accept
accept-Apart S env f i j a h k = grind (arith, k)

run-Apart :
    (S : Sodium) (env : Env) (f : ℕ → App → App) (act : Action) (i j : ℕ) (a : App)
    → j ≢ i
    → Apart f i j
    → (run_action S env f act i a).0.peers j ≡ a.peers j
unfolding run_action action_nothing
run-Apart S env f Action.cleanup i j a h k = cleanup_apart i j a h
run-Apart S env f Action.tofu_prompt i j a h k = prompt_apart i j a h
run-Apart S env f Action.tofu_accept i j a h k = accept-Apart S env f i j a h k
run-Apart S env f _ i j a h k = refl

settle_apart :
    (to : PeerState) (i j : ℕ) (r : App × Result (Unit {0}))
    → j ≢ i
    → (settle to i r).0.peers j ≡ r.0.peers j
settle_apart to i j (a, ok u) h = ground arith
settle_apart to i j (a, err e) h = refl

row-Apart :
    (S : Sodium) (env : Env) (f : ℕ → App → App) (i j : ℕ) (a : App) (t : Option Transition)
    → j ≢ i
    → Apart f i j
    → (apply_row S env f i a t).0.peers j ≡ a.peers j
row-Apart S env f i j a none h k = refl
row-Apart S env f i j a (some t) h k =
    settle_apart t.to i j (run_action S env f t.action i a) h ∙ run-Apart S env f t.action i j a h k

level_apart :
    (S : Sodium) (env : Env) (n i j : ℕ) (a : App) (ev : PeerEvent)
    → j ≢ i
    → (dispatch_level S env n i a ev).0.peers j ≡ a.peers j
unfolding dispatch_level
level_apart S env zero i j a ev h = refl
level_apart S env (suc n) i j a ev h =
    row-Apart S env (λ k b. (dispatch_level S env n k b PeerEvent.peer_disconnected).0) i j a
      (find (a.peers i).state ev transitions) h
      (λ b. level_apart S env n i j b PeerEvent.peer_disconnected h)

-- Whatever event is dispatched to a slot, in whatever state, and whether it succeeds or not,
-- every other slot stays as it was.
pub sm_dispatch_apart :
    (S : Sodium) (env : Env) (i j : ℕ) (a : App) (ev : PeerEvent)
    → j ≢ i
    → (sm_dispatch S env i a ev).0.peers j ≡ a.peers j
unfolding sm_dispatch
sm_dispatch_apart S env i j a ev h = level_apart S env 2 i j a ev h
