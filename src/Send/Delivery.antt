-- ===== src/Send/Delivery.antt =====
-- send_segmented_message_to of src/stdin_handler.c where the system takes every frame: the
-- message arrives.
use noxtor_cli.Prelude.{
  join, append_assoc, append_nil, take_all, drop_all, drop_add, length-piece, ℕ, zero, suc, ◌+◌,
  ◌-◌, ◌%◌, ◌≡◌, ◌≤◌, ◌<◌, refl, true, List, [], ◌∷◌, ◌++◌, map, some, leb, ◌==◌, length, drop,
  arith, Bool-cases, inl, inr, length-append, take-append-drop, sym, ap, ◌∙◌,
}
use noxtor_cli.Common.{Bytes, Result, ok, u32_mod, max_msg_len, uint64_max}
use noxtor_cli.Sodium.{Sodium, SodiumLaws}
use noxtor_cli.Noise.Cipher.{Session, noise_encrypt, cipher_encrypt, encode_nonce}
use noxtor_cli.Noise.Transport.{send_all}
use noxtor_cli.Peer.Types.{App, Env, write, set_peer}
use noxtor_cli.Send.Chunks.{next_chunk_size, next_chunk_size-IsCut, chunk_limit}
use noxtor_cli.Send.Segmented.{
  Kernel, text_frame, emit, sent, finish_write, transmit, send_text, nul, chunk_at, send_loop,
  send_segmented_message_to,
}
use noxtor_cli.Peer.Slot.{slot_same}
use noxtor_cli.Send.Frames.{frames, slot_twice, connected_on}

-- The pieces are not empty, and have 4000 bytes at most.
unfoldable pub AllChunks : List Bytes → Type 0
AllChunks [] = Unit {0}
AllChunks (t ∷ ts) = (1 ≤ length t) × (length t ≤ chunk_limit) × AllChunks ts

-- What the receiver of the frames has to put together: the pieces, their ciphertexts in the
-- order of the session, and the writes that carry them.
pub record Delivered (S : Sodium) (i fd : ℕ) (rest : Bytes) (a : App) (s : Session)
    (r : App × Result (Unit {0})) : Type 0 where
  pub texts : List Bytes
  pub cts : List Bytes
  pub app : App
  pub next : Session
  pub whole : join texts ≡ rest
  pub pieces : AllChunks texts
  pub result : r ≡ (app, ok tt)
  pub encrypted : send_all S s (map nul texts) ≡ (next, some cts)
  pub written : app.effects ≡ a.effects ++ frames fd (a.peers i).tx_seq cts
  pub has_session : (app.peers i).session ≡ some next

module _ (S : Sodium) (L : SodiumLaws S) (env : Env) (os : Kernel) (i : ℕ) (fd : ℕ) where
  -- What one frame that is written leaves.
  record Written (k : ℕ) (a : App) (s : Session) (text : Bytes) : Type 0 where
    app : App
    next : Session
    ct : Bytes
    result : send_text S env os k i fd a (a.peers i).session text ≡ (app, ok tt)
    encrypted : noise_encrypt S s text ≡ (next, some ct)
    recorded : app.effects ≡ a.effects ++ write fd (text_frame (a.peers i).tx_seq ct) ∷ []
    has_session : (app.peers i).session ≡ some next
    numbered : (app.peers i).tx_seq ≡ ((a.peers i).tx_seq + 1) % u32_mod
    keyed : next.tx.has_key ≡ true
    counted : next.tx.n ≡ s.tx.n + 1

  finish_ok :
      (frame : Bytes) (a : App)
      → finish_write S env i fd frame a (some (length frame))
        ≡ (sent env i (emit a (write fd frame ∷ [])), ok tt)
  unfolding finish_write
  finish_ok frame a =
      let whole : (length frame == length frame) ≡ true = ground arith in
      rw (whole, take_all frame) refl

  transmit_ok :
      ((k n : ℕ) → os.writev k n ≡ some n)
      → (k : ℕ) (a : App) (t : Session) (ct : Bytes)
      → transmit S env os k i fd a (t, some ct) ≡ (
        sent env i (
            emit
              (set_peer a i (record (a.peers i) { session = some t }))
              (write fd (text_frame (a.peers i).tx_seq ct) ∷ [])),
        ok tt,
      )
  unfolding transmit
  transmit_ok full k a t ct =
      let p = record (a.peers i) { session = some t } in
      rw (slot_same a i p, full k (length (text_frame (a.peers i).tx_seq ct)))
        (finish_ok (text_frame (a.peers i).tx_seq ct) (set_peer a i p))

  send_text_ok :
      ((k n : ℕ) → os.writev k n ≡ some n)
      → (k : ℕ) (a : App) (s : Session) (text : Bytes) → (a.peers i).session ≡ some s
      → s.tx.has_key ≡ true
      → s.tx.n < uint64_max
      → length text ≤ max_msg_len
      → Written k a s text
  unfolding send_text sent noise_encrypt cipher_encrypt
  send_text_ok full k a s text e h n l =
      let (ct, enc) = L.encrypt_total s.tx.k (encode_nonce s.tx.n) [] text in
      let t = record s { tx = record s.tx { n = s.tx.n + 1 } } in
      let taken : noise_encrypt S s text ≡ (t, some ct) = ground arith in
      let p = record (a.peers i) { session = some t } in
      let b = emit (set_peer a i p) (write fd (text_frame (a.peers i).tx_seq ct) ∷ []) in
      let twice = slot_twice a i p env.now in
      record {
        app = sent env i b;
        next = t;
        ct = ct;
        result =
            ap (λ z. send_text S env os k i fd a z text) e
            ∙ ap (transmit S env os k i fd a) taken
            ∙ transmit_ok full k a t ct;
        encrypted = taken;
        recorded = refl;
        has_session = rw twice refl;
        numbered = rw twice refl;
        keyed = h;
        counted = refl;
      }

  loop_delivers :
      ((k n : ℕ) → os.writev k n ≡ some n)
      → (msg : Bytes) (fuel k offset : ℕ) (a : App) (s : Session) → (a.peers i).session ≡ some s
      → s.tx.has_key ≡ true
      → s.tx.n + (length msg - offset) ≤ uint64_max
      → length msg ≤ uint64_max
      → offset ≤ length msg
      → length msg < fuel + offset
      → Delivered S i fd (drop offset msg) a s (send_loop S env os i fd msg fuel k offset a)
  unfolding send_loop send_all frames AllChunks
  loop_delivers full msg zero k offset a s e h n m o f = absurd (omega arith)
  loop_delivers full msg (suc fuel) k offset a s e h n m o f =
      elim (Bool-cases (leb (length msg) offset)) [
        | inl done ↦
            let end : offset ≡ length msg = ground arith in
            record {
              texts = [];
              cts = [];
              app = a;
              next = s;
              whole = rw end (sym (drop_all msg));
              pieces = tt;
              result = rw done refl;
              encrypted = refl;
              written = sym (append_nil a.effects);
              has_session = e;
            }
        | inr more ↦
            let size = next_chunk_size msg offset (length msg) in
            let text = chunk_at msg offset in
            let (lo, hi, within, c) =
              next_chunk_size-IsCut msg offset (length msg) (ground arith) m in
            let len : length text ≡ size = length-piece msg offset size within in
            let w =
              send_text_ok full k a s (nul text) e h (ground arith)
                (rw (length-append text (0 ∷ []), len) (omega arith)) in
            let d =
              loop_delivers full msg fuel (suc k) (offset + size) w.app w.next w.has_session w.keyed
                (rw w.counted (omega arith)) m within (omega arith) in
            record {
              texts = text ∷ d.texts;
              cts = w.ct ∷ d.cts;
              app = d.app;
              next = d.next;
              whole =
                  rw (d.whole, drop_add offset size msg) (take-append-drop size (drop offset msg));
              pieces = (rw len lo, rw len hi, d.pieces);
              result = rw (more, w.result) d.result;
              encrypted = rw (w.encrypted, d.encrypted) refl;
              written = d.written ∙ rw (w.recorded, w.numbered) (append_assoc a.effects _ _);
              has_session = d.has_session;
            }
      ]

-- Where the buffers can be allocated, the system takes every frame, and the slot has a descriptor
-- and a keyed session with a nonce for each byte, a message of any length is sent: the pieces of
-- 1 to 4000 bytes join to the message, each piece with its NUL is encrypted in the order of the
-- session, and the ciphertexts are written as text frames with consecutive numbers.
pub send_segmented-delivers :
    (S : Sodium) (L : SodiumLaws S) (env : Env) (os : Kernel) (i fd : ℕ) (a : App) (s : Session)
    (msg : Bytes)
    → ((k n : ℕ) → os.writev k n ≡ some n)
    → os.buffers ≡ true
    → (a.peers i).fd ≡ some fd
    → (a.peers i).session ≡ some s
    → s.tx.has_key ≡ true
    → s.tx.n + length msg ≤ uint64_max
    → Delivered S i fd msg a s (send_segmented_message_to S env os i a msg)
unfolding send_segmented_message_to
send_segmented-delivers S L env os i fd a s msg full room on e h n =
    rw (connected_on (a.peers i) fd s on e) (
      simp room (
        loop_delivers S L env os i fd full msg (suc (length msg)) 0 0 a s e h (omega arith)
          (omega arith) (omega arith) (omega arith)))
