-- ===== src/Receive/InTime.antt =====
-- When a slot is overdue, and which events end it (src/event_loop.c, src/state_machine.c).
use noxtor_cli.Prelude.{ℕ, ◌+◌, ◌≤◌, ◌≡◌, refl, ap, sym, ◌∙◌, arith, true, false, some}
use noxtor_cli.Sodium.{Sodium}
use noxtor_cli.Peer.Types.{PeerState, PeerEvent, Peer, App, Env}
use noxtor_cli.Peer.Table.{transitions, find}
use noxtor_cli.Peer.TableLaws.{shaking, is_up, next}
use noxtor_cli.Peer.Actions.{action_nothing}
use noxtor_cli.Peer.Dispatch.{sm_dispatch, dispatch_level, apply_row, run_action, is_pending}
use noxtor_cli.Peer.Slot.{slot_same}
use noxtor_cli.Receive.Timeouts.{
  handshake_timeout_sec, tofu_timeout_sec, file_chunk_timeout_sec, peer_idle_timeout_sec,
  is_receiving,
}

-- No handshake, prompt, file transfer or session of the slot waits longer than it may.
pub record InTime (now : ℕ) (p : Peer) : Type 0 where
  pub handshake : shaking p.state ≡ true → now ≤ p.handshake_start + handshake_timeout_sec
  pub prompt : is_pending p.state ≡ true → now ≤ p.tofu_start + tofu_timeout_sec
  pub chunk : p.rx_file.active ≡ true → now ≤ p.rx_file.last_chunk + file_chunk_timeout_sec
  pub session : is_up p.state ≡ true → now ≤ p.last_active + peer_idle_timeout_sec

-- An empty slot waits for nothing.
pub rest-InTime :
    (now : ℕ) (p : Peer) → p.state ≡ PeerState.idle → p.rx_file.active ≡ false → InTime now p
rest-InTime now p s f = record {
  handshake = λ h. absurd (let e : false ≡ true = sym (ap shaking s) ∙ h in cc);
  prompt = λ h. absurd (let e : false ≡ true = sym (ap is_pending s) ∙ h in cc);
  chunk = λ h. absurd (let e : false ≡ true = sym f ∙ h in cc);
  session = λ h. absurd (let e : false ≡ true = sym (ap is_up s) ∙ h in cc);
}

abbrev pub Handshakes : ℕ → Peer → Type 0
Handshakes now p = shaking p.state ≡ true → now ≤ p.handshake_start + handshake_timeout_sec

abbrev pub Prompts : ℕ → Peer → Type 0
Prompts now p = is_pending p.state ≡ true → now ≤ p.tofu_start + tofu_timeout_sec

abbrev pub Chunks : ℕ → Peer → Type 0
Chunks now p = p.rx_file.active ≡ true → now ≤ p.rx_file.last_chunk + file_chunk_timeout_sec

pub handshake_ends :
    (s : PeerState) → shaking s ≡ true → next s PeerEvent.handshake_timeout ≡ some PeerState.idle
unfolding next
handshake_ends s h = rw h refl

pub prompt_ends :
    (s : PeerState) → is_pending s ≡ true → next s PeerEvent.peer_disconnected ≡ some PeerState.idle
unfolding next
prompt_ends PeerState.tofu_pending h = refl
prompt_ends PeerState.idle h = absurd (ground arith)
prompt_ends PeerState.connecting h = absurd (ground arith)
prompt_ends PeerState.handshake_init h = absurd (ground arith)
prompt_ends PeerState.handshake_resp h = absurd (ground arith)
prompt_ends PeerState.active h = absurd (ground arith)
prompt_ends PeerState.file_tx h = absurd (ground arith)
prompt_ends PeerState.file_rx h = absurd (ground arith)

pub session_ends :
    (s : PeerState) → is_up s ≡ true → next s PeerEvent.peer_disconnected ≡ some PeerState.idle
unfolding next
session_ends PeerState.active h = refl
session_ends PeerState.file_tx h = refl
session_ends PeerState.file_rx h = refl
session_ends PeerState.idle h = absurd (ground arith)
session_ends PeerState.connecting h = absurd (ground arith)
session_ends PeerState.handshake_init h = absurd (ground arith)
session_ends PeerState.handshake_resp h = absurd (ground arith)
session_ends PeerState.tofu_pending h = absurd (ground arith)

done_row :
    (S : Sodium) (env : Env) (f : ℕ → App → App) (i : ℕ) (a : App) (s : PeerState)
    → is_receiving s ≡ true
    → (apply_row S env f i a (find s PeerEvent.file_done transitions)).0.peers i
      ≡ record (a.peers i) { state = PeerState.active }
unfolding transitions find run_action action_nothing
done_row S env f i a PeerState.file_rx h =
    slot_same a i (record (a.peers i) { state = PeerState.active })
done_row S env f i a PeerState.idle h = absurd (ground arith)
done_row S env f i a PeerState.connecting h = absurd (ground arith)
done_row S env f i a PeerState.handshake_init h = absurd (ground arith)
done_row S env f i a PeerState.handshake_resp h = absurd (ground arith)
done_row S env f i a PeerState.tofu_pending h = absurd (ground arith)
done_row S env f i a PeerState.active h = absurd (ground arith)
done_row S env f i a PeerState.file_tx h = absurd (ground arith)

pub file_done-active :
    (S : Sodium) (env : Env) (i : ℕ) (a : App)
    → is_receiving (a.peers i).state ≡ true
    → (sm_dispatch S env i a PeerEvent.file_done).0.peers i
      ≡ record (a.peers i) { state = PeerState.active }
unfolding sm_dispatch dispatch_level
file_done-active S env i a h = done_row S env _ i a (a.peers i).state h
