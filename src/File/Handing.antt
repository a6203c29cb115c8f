-- ===== src/File/Handing.antt =====
-- Each call of file_transfer_handle_tx of src/file_transfer.c keeps the sent bytes a stream of frames.
use noxtor_cli.Prelude.{
  join, ℕ, zero, suc, ◌+◌, ◌-◌, ◌≤◌, ◌<◌, ◌≡◌, refl, ap, sym, subst, ◌∙◌, ◌⊎◌, arith, min, true,
  false, [], ◌∷◌, ◌++◌, Option, none, some, ltb, ◌==◌, length, take, drop, take-append-drop,
  length-take, append_assoc, append_nil, inl, inr,
}
use noxtor_cli.Common.{Bytes, mac_len}
use noxtor_cli.Wire.{frame_header_encode, frame_header_size}
use noxtor_cli.Sodium.{Sodium}
use noxtor_cli.Noise.Cipher.{Session, noise_encrypt}
use noxtor_cli.Peer.Types.{Peer, App, Env, set_peer}
use noxtor_cli.Peer.Actions.{close_fd}
use noxtor_cli.Peer.Slot.{slot_same}
use noxtor_cli.File.Sending.{
  Written, took, write_again, write_failed, Taken, gave, read_again, read_failed, tx_buf_capacity,
  end_tx, file_frame, on_written, on_encrypted, on_chunk, on_taken, next_chunk,
  file_transfer_handle_tx,
}
use noxtor_cli.File.Progress.{
  file_stream, next_number, Encrypts-one_more, join_end, Origin, Between, Within, Sent,
  NoCiphertext, MovesOn, Waits, to_read, WriteRefused, ReadRefused, Stopped,
}
use noxtor_cli.File.Parts.{dropped, part-Sent}

drop_front : (xs ys : Bytes) → drop (length xs) (xs ++ ys) ≡ ys
drop_front [] ys = refl
drop_front (x ∷ xs) ys = drop_front xs ys

nothing_taken : (n : ℕ) (m : Bytes) → 1 ≤ n → take n m ≡ [] → m ≡ []
nothing_taken zero m h e = absurd (omega arith)
nothing_taken (suc n) [] h e = refl
nothing_taken (suc n) (b ∷ bs) h e = cc

module _ (S : Sodium) (env : Env) (o : Origin) (i : ℕ) (a : App) (put : ℕ → Written)
    (get : ℕ → Taken) where
  abbrev Why : Type 0
  Why = Stopped S (a.peers i) put get

  -- The transfer ends with nothing else changed in the slot than its session.
  unencrypted-Sent :
      (t : Session)
      → Why
      → Sent S o i a put get (end_tx i (set_peer a i (record (a.peers i) { session = some t })))
  unencrypted-Sent t w =
      let p = record (a.peers i) { session = some t } in
      dropped S env o i a put get (set_peer a i p) w
        (ap (λ q. a.effects ++ close_fd q.tx_file.fd) (slot_same a i p))

  -- A chunk that was read is the next part of the file.
  filled-Sent :
      (v : Between S o i a) (m later : Bytes) (s : Session) (r : Session × Option Bytes)
      → m ++ later ≡ v.rest
      → length (join v.ms) + length m ≤ o.size
      → s ≡ v.current
      → noise_encrypt S s m ≡ r
      → (NoCiphertext r.1 → Why)
      → 1 ≤ length m
      → Sent S o i a put get (on_encrypted i a m r)
  unfolding Sent MovesOn file_frame frame_header_encode NoCiphertext
  filled-Sent v m later s (t, none) e l q n bad h = unencrypted-Sent t (bad tt)
  filled-Sent v m later s (t, some []) e l q n bad h = unencrypted-Sent t (bad tt)
  filled-Sent v m later s (t, some (b ∷ bs)) e l q n bad h =
      let ct = b ∷ bs in
      let f = (a.peers i).tx_file in
      let buf = file_frame (a.peers i).tx_seq ct in
      let p = record (a.peers i) {
        session = some t;
        tx_file = record f { tx_buf = buf; tx_offset = 0; current_chunk_size = length m };
      } in
      let same = slot_same a i p in
      inr (
        inr (
          inl (
            record {
              ms = v.ms;
              cs = v.cs;
              m = m;
              c = ct;
              current = t;
              rest = later;
              new = v.new;
              on = ap (λ z. z.tx_file.active) same ∙ v.on;
              connected = ap (λ z. z.fd) same ∙ v.connected;
              has = ap (λ z. z.session) same;
              encrypted =
                  Encrypts-one_more S o.session v.current t v.ms v.cs m ct v.encrypted
                    (subst (λ z. noise_encrypt S z m ≡ (t, some ct)) q n);
              numbered = ap (λ z. z.tx_seq) same ∙ v.numbered;
              total = ap (λ z. z.tx_file.total_size) same ∙ v.total;
              counted = ap (λ z. z.tx_file.sent_bytes) same ∙ v.counted;
              chunk = ap (λ z. z.tx_file.current_chunk_size) same;
              parted =
                  ap (λ b. b ++ later) (join_end v.ms m)
                  ∙ append_assoc (join v.ms) m later
                  ∙ ap (λ b. join v.ms ++ b) e
                  ∙ v.parted;
              fits = l;
              some_bytes = h;
              buffered = ap (λ z. z.tx_file.tx_buf) same ∙ ap (λ k. file_frame k ct) v.numbered;
              unwritten =
                  subst
                    (λ (z : Peer).
                      z.tx_file.tx_offset < length (file_frame (next_number o.seq v.cs) ct))
                    (sym same) (omega arith);
              recorded = v.recorded;
              written =
                  v.written
                  ∙ sym (append_nil (file_stream o.seq v.cs))
                  ∙ ap
                      (λ (z : Peer).
                        file_stream o.seq v.cs
                        ++ take z.tx_file.tx_offset (file_frame (next_number o.seq v.cs) ct))
                      (sym same);
            },
            inl v.empty,
          )))

  chunk-Sent :
      (v : Between S o i a) (m later : Bytes)
      → m ++ later ≡ v.rest
      → length (join v.ms) + length m ≤ o.size
      → length m ≤ 4096
      → (m ≡ [] → Why)
      → (NoCiphertext (noise_encrypt S v.current m).1 → Why)
      → Sent S o i a put get (on_chunk S i a m)
  chunk-Sent v [] later e l h nothing bad = dropped S env o i a put get a (nothing refl) refl
  chunk-Sent v (b ∷ bs) later e l h nothing bad =
      let fits : ltb tx_buf_capacity (frame_header_size + (length (b ∷ bs) + mac_len)) ≡ false =
        ground arith in
      simp (fits, v.has)
        (filled-Sent v (b ∷ bs) later v.current (noise_encrypt S v.current (b ∷ bs)) e l refl refl
          bad (omega arith))

  taken-Sent :
      (v : Between S o i a) (r : Taken)
      → get (to_read (a.peers i)) ≡ r
      → ((m : Bytes) → r ≡ gave m → (later : Bytes) × (m ++ later ≡ v.rest))
      → Sent S o i a put get (on_taken S i a (to_read (a.peers i)) r)
  unfolding Sent Stopped Waits WriteRefused ReadRefused
  taken-Sent v (gave m) g file =
      let n = to_read (a.peers i) in
      let (later, e) = file m refl in
      let t = length-take n m in
      let total = v.total in
      let counted = v.counted in
      let left = v.left in
      chunk-Sent v (take n m) (drop n m ++ later)
        (sym (append_assoc (take n m) (drop n m) later)
          ∙ ap (λ b. b ++ later) (take-append-drop n m)
          ∙ e)
        (omega arith) (omega arith)
        (λ q. inr (v.empty, inr (inl (g ∙ ap gave (nothing_taken n m (omega arith) q)))))
        (λ q. inr (
          v.empty,
          inr (
              inr (record { bytes = m; current = v.current; given = g; has = v.has; refused = q })),
        ))
  taken-Sent v read_again g file = inl (inr (v.empty, g), refl)
  taken-Sent v read_failed g file = dropped S env o i a put get a (inr (v.empty, inl g)) refl

  next-Sent :
      (v : Between S o i a)
      → ((n : ℕ) (m : Bytes) → get n ≡ gave m → (later : Bytes) × (m ++ later ≡ v.rest))
      → Sent S o i a put get (next_chunk S i a get)
  unfolding next_chunk
  next-Sent v file =
      let f = (a.peers i).tx_file in
      let total = v.total in
      let counted = v.counted in
      let left = v.left in
      let some_left : (f.total_size - f.sent_bytes == 0) ≡ false = ground arith in
      rw some_left (taken-Sent v (get (to_read (a.peers i))) refl (file (to_read (a.peers i))))

  on_written-Sent :
      (v : Within S o i a) (w : Written)
      → put (length (a.peers i).tx_file.tx_buf - (a.peers i).tx_file.tx_offset) ≡ w
      → 0 < length (a.peers i).tx_file.tx_buf
      → Sent S o i a put get (on_written env i o.fd a w)
  unfolding Sent Stopped Waits WriteRefused ReadRefused
  on_written-Sent v (took zero) g h = dropped S env o i a put get a (inl (h, inl g)) refl
  on_written-Sent v (took (suc n)) g h =
      let size = ap (λ (x : Bytes). length x) v.buffered in
      let u = v.unwritten in
      part-Sent S env o i a put get v
        (min (suc n) (length (a.peers i).tx_file.tx_buf - (a.peers i).tx_file.tx_offset))
        (omega arith) (omega arith)
  on_written-Sent v write_again g h = inl (inl (h, g), refl)
  on_written-Sent v write_failed g h = dropped S env o i a put get a (inl (h, inr g)) refl

-- While a file is being sent, between two of its chunks or within the frame of one, and where
-- read gives bytes of the file at the position that was reached, a call does one of these things.
-- It does nothing, since write or read asks to be called again. It moves on: more of a frame is
-- written, or the next chunk is buffered, or a frame ends with more of the file sent, or the file
-- is complete with exactly as many bytes as announced; then the chunks join to the first part of
-- the file, each was encrypted in the order of the session, and the bytes written to the
-- connection are the frames of the ciphertexts with consecutive numbers, the last one perhaps in
-- part. Or the file is dropped with nothing more written, and only for a reason: a buffered frame
-- was there and write took nothing or failed; or none was, and read failed or found the end of
-- the file, or the chunk that was read was not encrypted.
pub handle_tx-Sent :
    (S : Sodium) (env : Env) (o : Origin) (i : ℕ) (a : App) (put : ℕ → Written) (get : ℕ → Taken)
    → Between S o i a ⊎ Within S o i a
    → ((n : ℕ) (m : Bytes)
        → get n ≡ gave m
        → (later : Bytes) × (m ++ later ≡ drop (a.peers i).tx_file.sent_bytes o.content))
    → Sent S o i a put get (file_transfer_handle_tx S env i a put get)
unfolding file_transfer_handle_tx file_frame frame_header_encode
handle_tx-Sent S env o i a put get (inl v) file =
    let rest : drop (a.peers i).tx_file.sent_bytes o.content ≡ v.rest =
      ap (λ n. drop n o.content) v.counted
      ∙ ap (λ x. drop (length (join v.ms)) x) (sym v.parted)
      ∙ drop_front (join v.ms) v.rest in
    simp (v.connected, v.on, v.empty)
      (next-Sent S env o i a put get v (λ n m e. let (later, q) = file n m e in (later, q ∙ rest)))
handle_tx-Sent S env o i a put get (inr v) file =
    let size = ap (λ (x : Bytes). length x) v.buffered in
    let some_left : ltb 0 (length (a.peers i).tx_file.tx_buf) ≡ true = ground arith in
    simp (v.connected, v.on, some_left)
      (on_written-Sent S env o i a put get v
        (put (length (a.peers i).tx_file.tx_buf - (a.peers i).tx_file.tx_offset)) refl
        (ground arith))
