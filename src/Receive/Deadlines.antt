-- ===== src/Receive/Deadlines.antt =====
-- The timeouts of src/event_loop.c leave no slot that is overdue: one slot.
use noxtor_cli.Prelude.{
  ℕ, ◌+◌, ◌≡◌, refl, ap, ◌∙◌, arith, Bool, true, false, ◌||◌, ◌&&◌, some, ltb, ◌==◌, Bool-cases,
  inl, inr, ◌++◌,
}
use noxtor_cli.Sodium.{Sodium}
use noxtor_cli.Peer.Types.{PeerState, PeerEvent, Peer, App, Env}
use noxtor_cli.Peer.Table.{state_code}
use noxtor_cli.Peer.TableLaws.{shaking, is_up, next}
use noxtor_cli.Peer.Actions.{no_rx, close_fd, unlink_partial}
use noxtor_cli.Peer.Dispatch.{sm_dispatch, is_pending}
use noxtor_cli.Peer.Slot.{slot_same}
use noxtor_cli.Peer.Cleanup.{idle-IsClean}
use noxtor_cli.File.Receive.{emit, set_rx}
use noxtor_cli.Receive.Timeouts.{
  handshake_timeout_sec, tofu_timeout_sec, file_chunk_timeout_sec, peer_idle_timeout_sec,
  file_transfer_chunk_expired, check_handshake, check_tofu, is_receiving, drop_file, check_chunk,
  half_frame, halfframe_timeout_sec, check_idle, is_free, check_slot,
}
use noxtor_cli.Receive.InTime.{
  InTime, Handshakes, Prompts, Chunks, rest-InTime, handshake_ends, prompt_ends, session_ends,
  file_done-active,
}

module _ (S : Sodium) (env : Env) (i : ℕ) where
  -- An event that ends the connection.
  ended-InTime :
      (a : App) (ev : PeerEvent)
      → next (a.peers i).state ev ≡ some PeerState.idle
      → InTime env.now ((sm_dispatch S env i a ev).0.peers i)
  ended-InTime a ev h =
      let (x, st, c, rel) = idle-IsClean S env i a ev h in rest-InTime env.now _ st c.idle_files.0

  handshake_step : (a : App) → Handshakes env.now ((check_handshake S env i a).peers i)
  unfolding check_handshake
  handshake_step a =
      elim (Bool-cases (
        shaking (a.peers i).state
        && ltb ((a.peers i).handshake_start + handshake_timeout_sec) env.now)) [
          | inl late ↦
              rw late
                (ended-InTime a PeerEvent.handshake_timeout
                  (handshake_ends (a.peers i).state (ground arith))).handshake
          | inr fine ↦ rw fine (λ h. ground arith)
        ]

  prompt_step :
      (a : App)
      → Handshakes env.now (a.peers i)
      → Handshakes env.now ((check_tofu S env i a).peers i)
        × Prompts env.now ((check_tofu S env i a).peers i)
  unfolding check_tofu
  prompt_step a k =
      elim (Bool-cases
        (is_pending (a.peers i).state && ltb ((a.peers i).tofu_start + tofu_timeout_sec) env.now)) [
          | inl late ↦
              let v =
                ended-InTime a PeerEvent.peer_disconnected
                  (prompt_ends (a.peers i).state (ground arith)) in
              rw late (v.handshake, v.prompt)
          | inr fine ↦ rw fine (k, λ h. ground arith)
        ]

  drop_step :
      (a : App)
      → Handshakes env.now (a.peers i)
      → Prompts env.now (a.peers i)
      → Handshakes env.now ((drop_file S env i a).peers i)
        × Prompts env.now ((drop_file S env i a).peers i)
        × Chunks env.now ((drop_file S env i a).peers i)
  unfolding drop_file
  drop_step a k l =
      let c = emit a (
        unlink_partial a.downloads_dir_fd (a.peers i).rx_file.local_name
        ++ close_fd (a.peers i).rx_file.fd) in
      let p = record (a.peers i) { rx_file = no_rx } in
      let b = set_rx c i no_rx in
      let same = slot_same c i p in
      elim (Bool-cases (is_receiving (b.peers i).state)) [
        | inr other ↦ rw (other, same) (k, l, λ h. absurd (ground arith))
        | inl receiving ↦
            let slot : (sm_dispatch S env i b PeerEvent.file_done).0.peers i
                ≡ record p { state = PeerState.active } =
              file_done-active S env i b receiving
              ∙ ap {A = Peer} {B = Peer} (λ q. record q { state = PeerState.active }) same in
            rw (receiving, slot)
              (λ h. absurd (ground arith), λ h. absurd (ground arith), λ h. absurd (ground arith))
      ]

  chunk_step :
      (a : App)
      → Handshakes env.now (a.peers i)
      → Prompts env.now (a.peers i)
      → Handshakes env.now ((check_chunk S env i a).peers i)
        × Prompts env.now ((check_chunk S env i a).peers i)
        × Chunks env.now ((check_chunk S env i a).peers i)
  unfolding check_chunk file_transfer_chunk_expired
  chunk_step a k l =
      elim (Bool-cases (
        (a.peers i).rx_file.active
        && ltb ((a.peers i).rx_file.last_chunk + file_chunk_timeout_sec) env.now)) [
          | inl late ↦ rw late (drop_step a k l)
          | inr fine ↦ rw fine (k, l, λ h. ground arith)
        ]

  idle_step :
      (a : App)
      → Handshakes env.now (a.peers i)
      → Prompts env.now (a.peers i)
      → Chunks env.now (a.peers i)
      → InTime env.now ((check_idle S env i a).peers i)
  unfolding check_idle
  idle_step a k l c =
      elim (Bool-cases (
        is_up (a.peers i).state
        && (ltb ((a.peers i).last_active + peer_idle_timeout_sec) env.now
            || (half_frame (a.peers i)
                && ltb ((a.peers i).last_active + halfframe_timeout_sec) env.now)))) [
                  | inl late ↦ rw late (
                      ended-InTime a PeerEvent.peer_disconnected (
                        session_ends (a.peers i).state
                          (first_true (is_up (a.peers i).state) _ late)))
                  | inr fine ↦ rw fine (record {
                    handshake = k;
                    prompt = l;
                    chunk = c;
                    session = λ h.
                        (let quick : ltb ((a.peers i).last_active + peer_idle_timeout_sec) env.now
                              ≡ false =
                            left_false _ _ _ h fine in
                          ground arith);
                  })
                ]
    where
      first_true : (x y : Bool) → (x && y) ≡ true → x ≡ true
      first_true true y h = refl
      first_true false y h = h

      left_false : (x y z : Bool) → x ≡ true → (x && (y || z)) ≡ false → y ≡ false
      left_false true true z h e = e
      left_false true false z h e = refl
      left_false false y z h e = absurd (ground arith)

  -- One slot.
  pub slot_step :
      (a : App)
      → ((a.peers i).state ≡ PeerState.idle → (a.peers i).rx_file.active ≡ false)
      → InTime env.now ((check_slot S env i a).peers i)
  unfolding check_slot
  slot_step a quiet = elim (Bool-cases (is_free (a.peers i))) [
    | inl free ↦ rw free (
        let st = idle_of (a.peers i).state (second_true _ _ free) in
        rest-InTime env.now (a.peers i) st (quiet st))
    | inr used ↦
        let b = check_handshake S env i a in
        let (k, l) = prompt_step b (handshake_step a) in
        let (m, n, c) = chunk_step (check_tofu S env i b) k l in
        rw used (idle_step (check_chunk S env i (check_tofu S env i b)) m n c)
  ]
    where
      second_true : (x y : Bool) → (x && y) ≡ true → y ≡ true
      second_true true y h = h
      second_true false y h = absurd (ground arith)

      idle_of : (s : PeerState) → (state_code s == 0) ≡ true → s ≡ PeerState.idle
      idle_of PeerState.idle h = refl
      idle_of PeerState.connecting h = absurd (ground arith)
      idle_of PeerState.handshake_init h = absurd (ground arith)
      idle_of PeerState.handshake_resp h = absurd (ground arith)
      idle_of PeerState.tofu_pending h = absurd (ground arith)
      idle_of PeerState.active h = absurd (ground arith)
      idle_of PeerState.file_tx h = absurd (ground arith)
      idle_of PeerState.file_rx h = absurd (ground arith)
