-- ===== src/Receive/Shaking.antt =====
-- The events that end a handshake: what sm_dispatch of src/state_machine.c does with the slot.
use noxtor_cli.Prelude.{ℕ, ◌+◌, ◌%◌, ◌≡◌, refl, ap, ◌∙◌, arith, true, some}
use noxtor_cli.Common.{u64_mod}
use noxtor_cli.Sodium.{Sodium}
use noxtor_cli.Peer.Types.{PeerState, PeerEvent, Peer, App, Env, set_peer}
use noxtor_cli.Peer.Table.{transitions, find}
use noxtor_cli.Peer.TableLaws.{next, shaking}
use noxtor_cli.Peer.Actions.{action_nothing, action_tofu_prompt}
use noxtor_cli.Peer.Dispatch.{run_action, apply_row, dispatch_level, sm_dispatch}
use noxtor_cli.Peer.Slot.{slot_same}

-- The slot has a new token, and waits for the user.
pub record Prompted (i : ℕ) (a b : App) : Type 0 where
  pub epoch : ℕ
  pub slot : b.peers i ≡ record (a.peers i) { tofu_epoch = epoch; state = PeerState.tofu_pending }

pub record Activated (i : ℕ) (a b : App) : Type 0 where
  pub slot : b.peers i ≡ record (a.peers i) { state = PeerState.active }

prompted :
    (i : ℕ) (a : App)
    → Prompted i a (
        set_peer
          (action_tofu_prompt i a).0
          i
          (record ((action_tofu_prompt i a).0.peers i) { state = PeerState.tofu_pending }))
unfolding action_tofu_prompt
prompted i a =
    let e = (a.tofu_epoch + 1) % u64_mod in
    let b = (action_tofu_prompt i a).0 in
    record {
      epoch = e;
      slot =
          slot_same b i (record (b.peers i) { state = PeerState.tofu_pending })
          ∙ ap {A = Peer} {B = Peer} (λ p. record p { state = PeerState.tofu_pending })
              (slot_same a i (record (a.peers i) { tofu_epoch = e }));
    }

done_row :
    (S : Sodium) (env : Env) (f : ℕ → App → App) (i : ℕ) (a : App) (s : PeerState)
    → shaking s ≡ true
    → Prompted i a (apply_row S env f i a (find s PeerEvent.handshake_done transitions)).0
unfolding transitions find run_action action_tofu_prompt
done_row S env f i a PeerState.handshake_init h = prompted i a
done_row S env f i a PeerState.handshake_resp h = prompted i a
done_row S env f i a PeerState.idle h = absurd (ground arith)
done_row S env f i a PeerState.connecting h = absurd (ground arith)
done_row S env f i a PeerState.tofu_pending h = absurd (ground arith)
done_row S env f i a PeerState.active h = absurd (ground arith)
done_row S env f i a PeerState.file_tx h = absurd (ground arith)
done_row S env f i a PeerState.file_rx h = absurd (ground arith)

ready_row :
    (S : Sodium) (env : Env) (f : ℕ → App → App) (i : ℕ) (a : App) (s : PeerState)
    → shaking s ≡ true
    → Activated i a (apply_row S env f i a (find s PeerEvent.session_ready transitions)).0
unfolding transitions find run_action action_nothing
ready_row S env f i a PeerState.handshake_init h = record {
  slot = slot_same a i (record (a.peers i) { state = PeerState.active });
}
ready_row S env f i a PeerState.handshake_resp h = record {
  slot = slot_same a i (record (a.peers i) { state = PeerState.active });
}
ready_row S env f i a PeerState.idle h = absurd (ground arith)
ready_row S env f i a PeerState.connecting h = absurd (ground arith)
ready_row S env f i a PeerState.tofu_pending h = absurd (ground arith)
ready_row S env f i a PeerState.active h = absurd (ground arith)
ready_row S env f i a PeerState.file_tx h = absurd (ground arith)
ready_row S env f i a PeerState.file_rx h = absurd (ground arith)

pub handshake_done-Prompted :
    (S : Sodium) (env : Env) (i : ℕ) (a : App)
    → shaking (a.peers i).state ≡ true
    → Prompted i a (sm_dispatch S env i a PeerEvent.handshake_done).0
unfolding sm_dispatch dispatch_level
handshake_done-Prompted S env i a h = done_row S env _ i a (a.peers i).state h

pub session_ready-Activated :
    (S : Sodium) (env : Env) (i : ℕ) (a : App)
    → shaking (a.peers i).state ≡ true
    → Activated i a (sm_dispatch S env i a PeerEvent.session_ready).0
unfolding sm_dispatch dispatch_level
session_ready-Activated S env i a h = ready_row S env _ i a (a.peers i).state h

-- A failed handshake leads to the idle state.
pub failing :
    (s : PeerState)
    → shaking s ≡ true
    → (next s PeerEvent.handshake_error ≡ some PeerState.idle)
      × (next s PeerEvent.arena_fail ≡ some PeerState.idle)
unfolding next
failing PeerState.handshake_init h = (refl, refl)
failing PeerState.handshake_resp h = (refl, refl)
failing PeerState.idle h = absurd (ground arith)
failing PeerState.connecting h = absurd (ground arith)
failing PeerState.tofu_pending h = absurd (ground arith)
failing PeerState.active h = absurd (ground arith)
failing PeerState.file_tx h = absurd (ground arith)
failing PeerState.file_rx h = absurd (ground arith)
