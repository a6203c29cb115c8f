-- ===== src/Receive/Admission.antt =====
-- Whom the handshake of src/event_loop.c lets in: nobody without a claim that the key of the onion
-- signed.
use noxtor_cli.Prelude.{
  ℕ, ◌+◌, ◌%◌, ◌≡◌, ap, ◌∙◌, arith, true, false, Option, none, some, ltb, ◌==◌, length, Bool-cases,
  inl, inr,
}
use noxtor_cli.Common.{Bytes, Result, ok, err, u32_mod}
use noxtor_cli.Sodium.{Sodium}
use noxtor_cli.Noise.Messages.{Handshake}
use noxtor_cli.Noise.Handshake.{handshake_read}
use noxtor_cli.Peer.Types.{App, Env, set_peer}
use noxtor_cli.Peer.Slot.{slot_same}
use noxtor_cli.Onion.Claim.{hs_build_claim_payload}
use noxtor_cli.Receive.Verdict.{Live, Running, Outcome}
use noxtor_cli.Receive.Control.{
  Host, with_hs, ctrl_frame, wrote, on_reply, send_reply, with_claim, after_read, on_ctrl,
}
use noxtor_cli.Receive.Claimed.{Out, error-Out, still, completed-Outcome}

module _ (S : Sodium) (env : Env) (H : Host) (i : ℕ) (fd : ℕ) (target : Bytes) where
  -- The slot with the handshake as it is now.
  moved-Live :
      (a : App) (hs hs' : Handshake) → Live i target hs a → Live i target hs' (with_hs a i hs')
  moved-Live a hs hs' v =
      let same = slot_same a i (record (a.peers i) { hs = some hs' }) in
      record {
        on = still S env H i fd target a (record (a.peers i) { hs = some hs' }) v.on;
        has = ap (λ p. p.hs) same;
        dialled = ap (λ p. p.connect_target) same ∙ v.dialled;
        no_session = ap (λ p. p.session) same ∙ v.no_session;
      }

  numbered-Live :
      (a : App) (hs : Handshake) (n : ℕ) (frame : Bytes)
      → Live i target hs a
      → Live i target hs (
          set_peer (wrote fd n frame a) i (record (a.peers i) {
            tx_seq = ((a.peers i).tx_seq + 1) % u32_mod;
            last_active = env.now;
          }))
  numbered-Live a hs n frame v =
      let p = record (a.peers i) {
        tx_seq = ((a.peers i).tx_seq + 1) % u32_mod;
        last_active = env.now;
      } in
      let same = slot_same (wrote fd n frame a) i p in
      record {
        on = still S env H i fd target (wrote fd n frame a) p v.on;
        has = ap (λ q. q.hs) same ∙ v.has;
        dialled = ap (λ q. q.connect_target) same ∙ v.dialled;
        no_session = ap (λ q. q.session) same ∙ v.no_session;
      }

  reply-Outcome :
      (a : App) (hs : Handshake) (pl frame : Bytes) (o : Option ℕ)
      → Live i target hs a
      → Out S env H i fd target (on_reply S env H i fd a hs pl frame o).0
  reply-Outcome a hs pl frame none v = error-Out S env H i fd target false a v.on
  reply-Outcome a hs pl frame (some n) v = elim (Bool-cases (n == length frame)) [
    | inr part ↦ simp part (error-Out S env H i fd target false (wrote fd n frame a) v.on)
    | inl all ↦
        simp all (completed-Outcome S env H i fd target _ hs pl (numbered-Live a hs n frame v))
  ]

  send-Outcome :
      (a : App) (hs : Handshake) (pl : Bytes) (r : Handshake × Result Bytes)
      → Live i target hs a
      → Out S env H i fd target (send_reply S env H i fd a pl r).0
  send-Outcome a hs pl (hs', err e) v =
      error-Out S env H i fd target false (with_hs a i hs') (moved-Live a hs hs' v).on
  send-Outcome a hs pl (hs', ok msg) v =
      let frame = ctrl_frame (a.peers i).tx_seq msg in
      reply-Outcome (with_hs a i hs') hs' pl frame (H.writev (length frame)) (moved-Live a hs hs' v)

  with_claim-Outcome :
      (a : App) (hs : Handshake) (pl : Bytes) (r : Result Bytes)
      → Live i target hs a
      → Out S env H i fd target (with_claim S env H i fd a hs pl r).0
  with_claim-Outcome a hs pl (err e) v = error-Out S env H i fd target false a v.on
  with_claim-Outcome a hs pl (ok claim) v = send-Outcome a hs pl _ v

  read-Outcome :
      (a : App) (hs : Handshake) (r : Handshake × Result Bytes)
      → Live i target hs a
      → Out S env H i fd target (after_read S env H i fd a r).0
  unfolding after_read
  read-Outcome a hs (hs', err e) v =
      error-Out S env H i fd target false (with_hs a i hs') (moved-Live a hs hs' v).on
  read-Outcome a hs (hs', ok pl) v = elim (Bool-cases (ltb hs'.msg_index 3)) [
    | inl answer ↦ simp answer (
        with_claim-Outcome (with_hs a i hs') hs' pl (hs_build_claim_payload H.ed H.me)
          (moved-Live a hs hs' v))
    | inr last ↦
        simp last
          (completed-Outcome S env H i fd target (with_hs a i hs') hs' pl (moved-Live a hs hs' v))
  ]

  -- While a handshake without a session is running in a slot, whatever CTRL frame arrives, and
  -- whatever the system, the contacts and the primitives answer: the slot becomes idle and
  -- empty, or the handshake goes on unfinished and without a session, or the user is asked
  -- about the static key of the completed handshake and an onion, or the slot is active with a
  -- session whose remote key is the one that the contacts store for the onion; in the last two
  -- cases the key in the onion address verified a signature of that static key and that onion,
  -- and the onion is the dialled one if one was dialled.
  pub on_ctrl-Outcome :
      (a : App) (payload : Bytes)
      → Running i target a
      → Outcome H.ed H.contact i target (on_ctrl S env H i fd a payload).0
  unfolding on_ctrl
  on_ctrl-Outcome a payload v =
      let more : ltb v.current.msg_index 3 ≡ true = (let u = v.unfinished in ground arith) in
      simp (v.has, more)
        (read-Outcome a v.current (handshake_read S v.current payload 127)
          (record { on = v.on; has = v.has; dialled = v.dialled; no_session = v.no_session }))
