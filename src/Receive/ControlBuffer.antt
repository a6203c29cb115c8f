-- ===== src/Receive/ControlBuffer.antt =====
-- A CTRL frame does not lengthen the receive buffer (process_peer_frames of src/event_loop.c).
use noxtor_cli.Prelude.{
  ℕ, ◌+◌, ◌%◌, ◌≤◌, arith, Bool, true, false, Option, none, some, ltb, ◌==◌, length, take,
  if◌then◌else◌, Bool-cases, inl, inr,
}
use noxtor_cli.Common.{Bytes, Result, ok, err, u32_mod, max_handshake_len, bytes_eq, is_zero}
use noxtor_cli.Sodium.{Sodium}
use noxtor_cli.Noise.Cipher.{Session}
use noxtor_cli.Noise.Messages.{Handshake}
use noxtor_cli.Noise.Handshake.{handshake_read, handshake_write, handshake_split}
use noxtor_cli.Peer.Types.{PeerEvent, Peer, App, Env, set_peer}
use noxtor_cli.Peer.Dispatch.{sm_dispatch}
use noxtor_cli.Peer.Buffer.{Shrinks, same-Shrinks, then-Shrinks, slot-Shrinks, dispatch-Shrinks}
use noxtor_cli.Onion.Claim.{check_claim, hs_build_claim_payload}
use noxtor_cli.Receive.Control.{
  Host, with_hs, admitted, named, split_known, known_peer, undecided, ask_user, peer_name,
  by_contact, stored, on_claim, completed, ctrl_frame, wrote, on_reply, send_reply, with_claim,
  after_read, on_message,
}

module _ (S : Sodium) (env : Env) (H : Host) (i fd : ℕ) where
  hs-Shrinks : (a : App) (hs : Handshake) → Shrinks i a (with_hs a i hs)
  hs-Shrinks a hs = slot-Shrinks i a (record (a.peers i) { hs = some hs }) (omega arith)

  -- An event after a new handshake state.
  end_hs-Shrinks :
      (a : App) (hs : Handshake) (ev : PeerEvent)
      → Shrinks i a (sm_dispatch S env i (with_hs a i hs) ev).0
  end_hs-Shrinks a hs ev =
      then-Shrinks i a (with_hs a i hs) (sm_dispatch S env i (with_hs a i hs) ev).0
        (hs-Shrinks a hs) (dispatch-Shrinks S env i (with_hs a i hs) ev)

  slot_event-Shrinks :
      (a : App) (p : Peer) (ev : PeerEvent)
      → length p.recv_buf ≤ length (a.peers i).recv_buf
      → Shrinks i a (sm_dispatch S env i (set_peer a i p) ev).0
  slot_event-Shrinks a p ev l =
      then-Shrinks i a (set_peer a i p) (sm_dispatch S env i (set_peer a i p) ev).0
        (slot-Shrinks i a p l) (dispatch-Shrinks S env i (set_peer a i p) ev)

  split-Shrinks :
      (a : App) (onion : Bytes) (r : Handshake × Result Session)
      → Shrinks i a (split_known S env i a onion r).0
  split-Shrinks a onion (hs, err e) = end_hs-Shrinks a hs PeerEvent.handshake_error
  split-Shrinks a onion (hs, ok s) =
      let b =
        (sm_dispatch S env i (set_peer a i (admitted env (a.peers i) s))
          PeerEvent.session_ready).0 in
      then-Shrinks i a b (named i onion b)
        (slot_event-Shrinks a (admitted env (a.peers i) s) PeerEvent.session_ready (omega arith))
        (slot-Shrinks i b (record (b.peers i) { peer_onion = take 62 onion }) (omega arith))

  known-Shrinks :
      (a : App) (hs : Handshake) (onion : Bytes) → Shrinks i a (known_peer S env i a hs onion).0
  unfolding known_peer
  known-Shrinks a hs onion = elim (Bool-cases env.session_alloc) [
    | inl got ↦ simp got (split-Shrinks a onion (handshake_split S hs))
    | inr lacking ↦ simp lacking (
        slot_event-Shrinks a (record (a.peers i) { session = none }) PeerEvent.arena_fail
          (omega arith))
  ]

  ask-Shrinks :
      (a : App) (onion name key : Bytes) (z : Bool)
      → Shrinks i a (ask_user S env i fd a onion name key z).0
  unfolding ask_user
  ask-Shrinks a onion name key z =
      slot_event-Shrinks a (undecided env fd onion name key z (a.peers i)) PeerEvent.handshake_done
        (omega arith)

  contact-Shrinks :
      (a : App) (hs : Handshake) (onion : Bytes) (r : Result (Bytes × Bytes))
      → Shrinks i a (by_contact S env i fd a hs onion r).0
  contact-Shrinks a hs onion (err e) = ask-Shrinks a onion (peer_name onion) hs.rs false
  contact-Shrinks a hs onion (ok (name, key)) = elim (Bool-cases (is_zero key)) [
    | inl placeholder ↦
        rw placeholder
          (ask-Shrinks a onion (if length name == 0 then peer_name onion else name) hs.rs true)
    | inr given ↦ elim (Bool-cases (bytes_eq key hs.rs)) [
      | inl same ↦ simp (given, same) (known-Shrinks a hs onion)
      | inr other ↦ simp (given, other) (ask-Shrinks a onion name hs.rs false)
    ]
  ]

  claim-Shrinks :
      (a : App) (hs : Handshake) (r : Result Bytes) → Shrinks i a (on_claim S env H i fd a hs r).0
  claim-Shrinks a hs (err e) = dispatch-Shrinks S env i a PeerEvent.handshake_error
  claim-Shrinks a hs (ok onion) = contact-Shrinks a hs onion (stored H a onion)

  completed-Shrinks :
      (a : App) (hs : Handshake) (pl : Bytes) → Shrinks i a (completed S env H i fd a hs pl).0
  unfolding completed
  completed-Shrinks a hs pl = elim (Bool-cases (ltb hs.msg_index 3)) [
    | inl more ↦ rw more (same-Shrinks i a)
    | inr last ↦ rw last (claim-Shrinks a hs (check_claim H.ed pl hs.rs (a.peers i).connect_target))
  ]

  reply-Shrinks :
      (a : App) (hs : Handshake) (pl sent : Bytes) (o : Option ℕ)
      → Shrinks i a (on_reply S env H i fd a hs pl sent o).0
  reply-Shrinks a hs pl sent none = dispatch-Shrinks S env i a PeerEvent.handshake_error
  reply-Shrinks a hs pl sent (some n) =
      let c = wrote fd n sent a in
      let p = record (a.peers i) {
        tx_seq = ((a.peers i).tx_seq + 1) % u32_mod;
        last_active = env.now;
      } in
      elim (Bool-cases (n == length sent)) [
        | inr part ↦ simp part (dispatch-Shrinks S env i c PeerEvent.handshake_error)
        | inl all ↦ simp all (
            then-Shrinks i a (set_peer c i p) (completed S env H i fd (set_peer c i p) hs pl).0
              (slot-Shrinks i c p (omega arith)) (completed-Shrinks (set_peer c i p) hs pl))
      ]

  send-Shrinks :
      (a : App) (pl : Bytes) (r : Handshake × Result Bytes)
      → Shrinks i a (send_reply S env H i fd a pl r).0
  send-Shrinks a pl (hs, err e) = end_hs-Shrinks a hs PeerEvent.handshake_error
  send-Shrinks a pl (hs, ok msg) =
      let f = ctrl_frame (a.peers i).tx_seq msg in
      let b = with_hs a i hs in
      then-Shrinks i a b (on_reply S env H i fd b hs pl f (H.writev (length f))).0 (hs-Shrinks a hs)
        (reply-Shrinks b hs pl f (H.writev (length f)))

  with_claim-Shrinks :
      (a : App) (hs : Handshake) (pl : Bytes) (r : Result Bytes)
      → Shrinks i a (with_claim S env H i fd a hs pl r).0
  with_claim-Shrinks a hs pl (err e) = dispatch-Shrinks S env i a PeerEvent.handshake_error
  with_claim-Shrinks a hs pl (ok claim) =
      send-Shrinks a pl (handshake_write S hs H.ephemeral claim max_handshake_len)

  read-Shrinks :
      (a : App) (r : Handshake × Result Bytes) → Shrinks i a (after_read S env H i fd a r).0
  unfolding after_read
  read-Shrinks a (hs, err e) = end_hs-Shrinks a hs PeerEvent.handshake_error
  read-Shrinks a (hs, ok pl) =
      let b = with_hs a i hs in
      elim (Bool-cases (ltb hs.msg_index 3)) [
        | inl answer ↦
            let r = hs_build_claim_payload H.ed H.me in
            simp answer (
              then-Shrinks i a b (with_claim S env H i fd b hs pl r).0 (hs-Shrinks a hs)
                (with_claim-Shrinks b hs pl r))
        | inr last ↦ simp last (
            then-Shrinks i a b (completed S env H i fd b hs pl).0 (hs-Shrinks a hs)
              (completed-Shrinks b hs pl))
      ]

  pub message-Shrinks :
      (a : App) (payload : Bytes) (o : Option Handshake)
      → Shrinks i a (on_message S env H i fd a payload o).0
  message-Shrinks a payload none = same-Shrinks i a
  message-Shrinks a payload (some hs) = elim (Bool-cases (ltb hs.msg_index 3)) [
    | inl running ↦ rw running (read-Shrinks a (handshake_read S hs payload 127))
    | inr over ↦ rw over (same-Shrinks i a)
  ]
