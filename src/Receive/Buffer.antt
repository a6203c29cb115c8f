-- ===== src/Receive/Buffer.antt =====
-- What a frame does in process_peer_frames of src/event_loop.c does not lengthen the receive buffer.
use noxtor_cli.Prelude.{
  ℕ, suc, ◌+◌, ◌%◌, arith, Bool, true, false, not, ◌||◌, List, [], ◌∷◌, Option, none, some, ltb,
  ◌==◌, length, take, if◌then◌else◌, Bool-cases, inl, inr,
}
use noxtor_cli.Common.{Bytes, Result, ok, err, u32_mod, max_msg_len, c_string}
use noxtor_cli.Sodium.{Sodium}
use noxtor_cli.Noise.Cipher.{Session, noise_encrypt, noise_decrypt}
use noxtor_cli.Wire.{FrameHeader, msg_text}
use noxtor_cli.Peer.Types.{PeerEvent, App, Env, write, set_peer}
use noxtor_cli.Peer.Buffer.{
  Shrinks, same-Shrinks, then-Shrinks, if-Shrinks, slot-Shrinks, dispatch-Shrinks,
}
use noxtor_cli.File.Receive.{emit, file_transfer_handle_rx}
use noxtor_cli.File.Buffer.{handle_rx-Shrinks}
use noxtor_cli.Send.Segmented.{
  Kernel, text_frame, sent, finish_write, transmit, send_text, nul, connected, queued_to,
  send_queued_callback,
}
use noxtor_cli.Queue.{
  Row, deleted, after_send, terminated, text_of, send_plain, send_rows, batch_of, send_batch,
  db_process_queue,
}
use noxtor_cli.Receive.Frames.{
  World, ui_print_incoming, mark_flushed, flush_queue, counted, on_plain, on_text, count_if,
  on_data,
}

module _ (S : Sodium) (env : Env) (i : ℕ) where
  kept-Shrinks :
      (a : App) (s : Option Session)
      → Shrinks i a (set_peer a i (record (a.peers i) { session = s }))
  kept-Shrinks a s = slot-Shrinks i a (record (a.peers i) { session = s }) (omega arith)

  -- Queued messages.
  finish-Shrinks :
      (fd : ℕ) (frame : Bytes) (a : App) (o : Option ℕ)
      → Shrinks i a (finish_write S env i fd frame a o).0
  unfolding finish_write sent
  finish-Shrinks fd frame a none = dispatch-Shrinks S env i a PeerEvent.peer_disconnected
  finish-Shrinks fd frame a (some n) =
      let b = emit a (write fd (take n frame) ∷ []) in
      elim (Bool-cases (n == length frame)) [
        | inl all ↦ rw all (
            slot-Shrinks i b
              (record (b.peers i) {
                tx_seq = ((b.peers i).tx_seq + 1) % u32_mod;
                last_active = env.now;
              })
              (omega arith))
        | inr part ↦ rw part (dispatch-Shrinks S env i b PeerEvent.peer_disconnected)
      ]

  transmit-Shrinks :
      (os : Kernel) (k fd : ℕ) (a : App) (r : Session × Option Bytes)
      → Shrinks i a (transmit S env os k i fd a r).0
  unfolding transmit
  transmit-Shrinks os k fd a (s, none) = kept-Shrinks a (some s)
  transmit-Shrinks os k fd a (s, some ct) =
      let b = set_peer a i (record (a.peers i) { session = some s }) in
      let frame = text_frame (b.peers i).tx_seq ct in
      let o = os.writev k (length frame) in
      then-Shrinks i a b (finish_write S env i fd frame b o).0 (kept-Shrinks a (some s))
        (finish-Shrinks fd frame b o)

  send-Shrinks :
      (os : Kernel) (k fd : ℕ) (a : App) (o : Option Session) (text : Bytes)
      → Shrinks i a (send_text S env os k i fd a o text).0
  unfolding send_text
  send-Shrinks os k fd a none text = same-Shrinks i a
  send-Shrinks os k fd a (some s) text = transmit-Shrinks os k fd a (noise_encrypt S s text)

  queued_to-Shrinks :
      (os : Kernel) (a : App) (text : Bytes) (o : Option (ℕ × Session))
      → Shrinks i a (queued_to S env os i a text o).0
  queued_to-Shrinks os a text none = same-Shrinks i a
  queued_to-Shrinks os a text (some (fd, s)) =
      elim (Bool-cases (ltb max_msg_len (length text + 1))) [
        | inl long ↦ rw long (same-Shrinks i a)
        | inr fits ↦ elim (Bool-cases os.buffers) [
          | inl got ↦ simp (fits, got) (send-Shrinks os 0 fd a (some s) (nul text))
          | inr lacking ↦ simp (fits, lacking) (same-Shrinks i a)
        ]
      ]

  queued-Shrinks :
      (os : Kernel) (a : App) (text : Bytes)
      → Shrinks i a (send_queued_callback S env os i a text).0
  unfolding send_queued_callback
  queued-Shrinks os a text = queued_to-Shrinks os a text (connected (a.peers i))

  rows-Shrinks :
      (send : App → Bytes → App × Result (Unit {0}))
      → ((a : App) (t : Bytes) → Shrinks i a (send a t).0)
      → (rows : List Row) (a : App) → Shrinks i a (send_rows send rows a).0
  unfolding send_rows
  rows-Shrinks send k [] a = same-Shrinks i a
  rows-Shrinks send k (r ∷ rs) a = elim (Bool-cases r.plain_alloc) [
    | inr lacking ↦ simp lacking (same-Shrinks i a)
    | inl alloc ↦ simp alloc (plain a (λ b. rows-Shrinks send k rs b) r.plain)
  ]
    where
      sent_one :
          (a : App) (q : App × Result (Unit {0}))
          → Shrinks i a q.0
          → ((b : App) → Shrinks i b (send_rows send rs b).0)
          → Shrinks i a (after_send r.id (λ b. send_rows send rs b) q).0
      sent_one a (b, ok u) h ih =
          then-Shrinks i a b (send_rows send rs (deleted r.id b)).0 h (ih (deleted r.id b))
      sent_one a (b, err e) h ih = h

      plain :
          (a : App)
          → ((b : App) → Shrinks i b (send_rows send rs b).0)
          → (o : Option Bytes) → Shrinks i a (send_plain send r.id (λ b. send_rows send rs b) a o).0
      plain a ih none = ih (deleted r.id a)
      plain a ih (some p) = elim (Bool-cases (terminated p)) [
        | inr cut_off ↦ simp cut_off (ih (deleted r.id a))
        | inl whole ↦ simp whole (sent_one a (send a (text_of p)) (k a (text_of p)) ih)
      ]

  batch-Shrinks :
      (send : App → Bytes → App × Result (Unit {0}))
      → ((a : App) (t : Bytes) → Shrinks i a (send a t).0)
      → (rows : Result (List Row)) (a : App) → Shrinks i a (send_batch send a rows).0
  batch-Shrinks send k (err e) a = same-Shrinks i a
  batch-Shrinks send k (ok rs) a = rows-Shrinks send k rs a

  flush-Shrinks : (W : World) (a : App) → Shrinks i a (flush_queue S env W i a)
  unfolding flush_queue db_process_queue
  flush-Shrinks W a =
      let b = mark_flushed i a in
      let sent =
        (send_batch (λ c text. send_queued_callback S env W.kernel i c text) b
          (batch_of (W.queue (a.peers i).peer_onion))).0 in
      let marked = slot-Shrinks i a (record (a.peers i) { queue_flushed = true }) (omega arith) in
      if-Shrinks i a a (if not (a.peers i).peer_verified then b else sent)
        ((a.peers i).queue_flushed || a.ghost_mode) (same-Shrinks i a)
        (if-Shrinks i a b sent (not (a.peers i).peer_verified) marked (
          then-Shrinks i a b sent marked (
            batch-Shrinks (λ c text. send_queued_callback S env W.kernel i c text)
              (λ c t. queued-Shrinks W.kernel c t) (batch_of (W.queue (a.peers i).peer_onion)) b)))

  counted-Shrinks : (a : App) → Shrinks i a (counted env i a)
  counted-Shrinks a =
      slot-Shrinks i a
        (record (a.peers i) { rx_seq = ((a.peers i).rx_seq + 1) % u32_mod; last_active = env.now })
        (omega arith)

  plain-Shrinks : (W : World) (a : App) (o : Option Bytes) → Shrinks i a (on_plain S env W i a o)
  plain-Shrinks W a none = same-Shrinks i a
  plain-Shrinks W a (some []) = same-Shrinks i a
  plain-Shrinks W a (some (x ∷ xs)) =
      let b = emit a (ui_print_incoming (c_string (suc (length xs)) (x ∷ xs))) in
      then-Shrinks i a (flush_queue S env W i b) (counted env i (flush_queue S env W i b))
        (flush-Shrinks W b) (counted-Shrinks (flush_queue S env W i b))

  text-Shrinks :
      (W : World) (a : App) (s : Session) (payload : Bytes)
      → Shrinks i a (on_text S env W i a s payload)
  unfolding on_text
  text-Shrinks W a s payload = elim (Bool-cases W.text_alloc) [
    | inr lacking ↦ simp lacking (same-Shrinks i a)
    | inl room ↦
        let t = (noise_decrypt S s payload).0 in
        let b = set_peer a i (record (a.peers i) { session = some t }) in
        simp room (
          then-Shrinks i a b (on_plain S env W i b (noise_decrypt S s payload).1)
            (kept-Shrinks a (some t)) (plain-Shrinks W b (noise_decrypt S s payload).1))
  ]

  count_if-Shrinks : (a : App) (r : App × Bool) → Shrinks i a r.0 → Shrinks i a (count_if env i r)
  count_if-Shrinks a (b, true) h = then-Shrinks i a b (counted env i b) h (counted-Shrinks b)
  count_if-Shrinks a (b, false) h = h

  pub data-Shrinks :
      (W : World) (a : App) (s : Session) (h : FrameHeader) (payload : Bytes)
      → Shrinks i a (on_data S env W i a s h payload).0
  unfolding on_data
  data-Shrinks W a s h payload = elim (Bool-cases (h.seq == (a.peers i).rx_seq)) [
    | inr other ↦ simp other (dispatch-Shrinks S env i a PeerEvent.seq_mismatch)
    | inl next ↦ elim (Bool-cases (h.kind == msg_text)) [
      | inl is_text ↦ simp (next, is_text) (text-Shrinks W a s payload)
      | inr is_file ↦
          simp (next, is_file)
            (count_if-Shrinks a (file_transfer_handle_rx S env W.disk i a payload)
              (handle_rx-Shrinks S env i W.disk a payload))
    ]
  ]
