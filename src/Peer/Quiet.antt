-- ===== src/Peer/Quiet.antt =====
-- The events of a file transfer change the state of the slot and nothing else (src/state_machine.c,
-- action_file_begin_rx and action_file_end).
use noxtor_cli.Prelude.{ℕ, ◌≡◌, refl}
use noxtor_cli.Sodium.{Sodium}
use noxtor_cli.Peer.Types.{PeerState, PeerEvent, App, Env, set_peer}
use noxtor_cli.Peer.Table.{transitions, find}
use noxtor_cli.Peer.Actions.{action_nothing}
use noxtor_cli.Peer.Dispatch.{run_action, apply_row, dispatch_level, sm_dispatch}
use noxtor_cli.Peer.Slot.{slot_same}

pub record Quiet (i : ℕ) (a b : App) : Type 0 where
  pub effects : b.effects ≡ a.effects
  pub dir : b.downloads_dir_fd ≡ a.downloads_dir_fd
  pub state : PeerState
  pub slot : b.peers i ≡ record (a.peers i) { state = state }

pub moved :
    (a : App) (i : ℕ) (s : PeerState) → Quiet i a (set_peer a i (record (a.peers i) { state = s }))
moved a i s = record {
  effects = refl;
  dir = refl;
  state = s;
  slot = slot_same a i (record (a.peers i) { state = s });
}

unmoved : (a : App) (i : ℕ) → Quiet i a a
unmoved a i = record { effects = refl; dir = refl; state = (a.peers i).state; slot = refl }

done_row :
    (S : Sodium) (env : Env) (f : ℕ → App → App) (i : ℕ) (a : App) (s : PeerState)
    → Quiet i a (apply_row S env f i a (find s PeerEvent.file_done transitions)).0
unfolding transitions find run_action action_nothing
done_row S env f i a PeerState.file_tx = moved a i PeerState.active
done_row S env f i a PeerState.file_rx = moved a i PeerState.active
done_row S env f i a _ = unmoved a i

start_row :
    (S : Sodium) (env : Env) (f : ℕ → App → App) (i : ℕ) (a : App) (s : PeerState)
    → Quiet i a (apply_row S env f i a (find s PeerEvent.file_rx_start transitions)).0
unfolding transitions find run_action action_nothing
start_row S env f i a PeerState.active = moved a i PeerState.file_rx
start_row S env f i a _ = unmoved a i

pub file_done-Quiet :
    (S : Sodium) (env : Env) (i : ℕ) (a : App)
    → Quiet i a (sm_dispatch S env i a PeerEvent.file_done).0
unfolding sm_dispatch dispatch_level
file_done-Quiet S env i a = done_row S env _ i a (a.peers i).state

pub file_rx_start-Quiet :
    (S : Sodium) (env : Env) (i : ℕ) (a : App)
    → Quiet i a (sm_dispatch S env i a PeerEvent.file_rx_start).0
unfolding sm_dispatch dispatch_level
file_rx_start-Quiet S env i a = start_row S env _ i a (a.peers i).state
