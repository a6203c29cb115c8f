-- ===== src/Peer/Levels.antt =====
-- sm_dispatch of src/state_machine.c calls itself at most once more.
use noxtor_cli.Prelude.{ℕ, suc, ◌≡◌, refl, ap}
use mathlib.Core.Path.{fun_ext}
use noxtor_cli.Common.{Result}
use noxtor_cli.Sodium.{Sodium}
use noxtor_cli.Peer.Types.{PeerState, PeerEvent, App, Env}
use noxtor_cli.Peer.Table.{transitions, find}
use noxtor_cli.Peer.Dispatch.{run_action, apply_row, dispatch_level, sm_dispatch}

-- A disconnection runs action_cleanup or nothing, so the call that it may make does not matter.
disconnect_flat :
    (S : Sodium) (env : Env) (f g : ℕ → App → App) (i : ℕ) (a : App) (s : PeerState)
    → apply_row S env f i a (find s PeerEvent.peer_disconnected transitions)
      ≡ apply_row S env g i a (find s PeerEvent.peer_disconnected transitions)
unfolding transitions find run_action
disconnect_flat S env f g i a PeerState.idle = refl
disconnect_flat S env f g i a _ = refl

disconnect_levels :
    (S : Sodium) (env : Env) (m n i : ℕ) (a : App)
    → dispatch_level S env (suc m) i a PeerEvent.peer_disconnected
      ≡ dispatch_level S env (suc n) i a PeerEvent.peer_disconnected
unfolding dispatch_level
disconnect_levels S env m n i a = disconnect_flat S env _ _ i a (a.peers i).state

-- However deep the dispatcher may call itself, from two levels on the result is the same.
pub two_levels :
    (S : Sodium) (env : Env) (n i : ℕ) (a : App) (ev : PeerEvent)
    → dispatch_level S env (suc (suc n)) i a ev ≡ sm_dispatch S env i a ev
unfolding sm_dispatch dispatch_level
two_levels S env n i a ev =
    ap (λ (f : ℕ → App → App). apply_row S env f i a (find (a.peers i).state ev transitions))
      (fun_ext λ j.
        fun_ext λ b. ap (λ (r : App × Result (Unit {0})). r.0) (disconnect_levels S env n 0 j b))
