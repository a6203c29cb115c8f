-- ===== src/Receive/Conversation.antt =====
-- A buffer full of text frames, and a connection that brings them in pieces
-- (process_peer_frames and the EPOLLIN branch of src/event_loop.c).
use noxtor_cli.Prelude.{
  ℕ, zero, suc, ◌+◌, ◌%◌, ◌≤◌, ◌<◌, ◌≡◌, refl, ap, sym, subst, ◌∙◌, arith, true, ◌||◌, List, [],
  ◌∷◌, ◌++◌, Option, none, some, ltb, length, append_assoc, append_nil, length-append, Bool-cases,
  inl, inr,
}
use noxtor_cli.Common.{Bytes, u32_mod, c_string, mac_len, max_payload_len}
use noxtor_cli.Sodium.{Sodium}
use noxtor_cli.Noise.Cipher.{Session, noise_decrypt}
use noxtor_cli.Peer.Types.{Peer, App, Env, Effect, set_peer}
use noxtor_cli.Peer.Slot.{slot_same}
use noxtor_cli.Receive.Framing.{wait, frame, next_frame}
use noxtor_cli.Receive.Stream.{AllSent, stream, whole_frame, length-encode}
use noxtor_cli.Receive.Frames.{
  World, ui_print_incoming, with_buf, frames_loop, and_next, process_peer_frames, on_bytes, on_text,
  has_session,
}
use noxtor_cli.Receive.Texts.{
  Ready, Got, Decrypts, text_frames, number_after, shown, header, text-Got, frame-text,
}

decrypt_size :
    (S : Sodium) (t v : Session) (c p : Bytes)
    → noise_decrypt S t c ≡ (v, some p)
    → (mac_len ≤ length c) × (length c ≤ max_payload_len)
unfolding noise_decrypt
decrypt_size S t v c p e = elim (Bool-cases (ltb max_payload_len (length c))) [
  | inl long ↦ absurd (refused t v p (simp long refl ∙ e))
  | inr fits ↦ elim (Bool-cases (ltb (length c) mac_len)) [
    | inl short ↦ absurd (refused t v p (simp (fits, short) refl ∙ e))
    | inr whole ↦ (ground arith, ground arith)
  ]
]
  where
    refused :
        (t v : Session) (p : Bytes) → ◌≡◌ {A = Session × Option Bytes} (t, none) (v, some p) → ⊥
    refused t v p h = ground arith

pub text_frames-AllSent :
    (S : Sodium) (t u : Session) (cs ps : List Bytes) (seq : ℕ)
    → seq < u32_mod
    → Decrypts S t cs ps u
    → AllSent (text_frames seq cs)
unfolding Decrypts AllSent text_frames
text_frames-AllSent S t u [] ps seq l d = tt
text_frames-AllSent S t u (c ∷ cs) [] seq l d = absurd d
text_frames-AllSent S t u (c ∷ cs) (p ∷ ps) seq l (v, e, n, d) =
    let (lo, hi) = decrypt_size S t v c p e in
    (
      record {
        header = record {
          magic = refl;
          lowest = omega arith;
          highest = omega arith;
          numbered = l;
          fits = hi;
        };
        full = refl;
        not_empty = omega arith;
      },
      text_frames-AllSent S v u cs ps ((seq + 1) % u32_mod) (omega arith) d,
    )

module _ (S : Sodium) (env : Env) (W : World) (i fd : ℕ) (room : W.payload_alloc ≡ true)
    (text_room : W.text_alloc ≡ true) where
  loop-Got :
      (cs ps : List Bytes) (t u : Session) (seq fuel : ℕ) (part : Bytes) (es : List Effect)
      (a : App)
      → AllSent (text_frames seq cs)
      → Decrypts S t cs ps u
      → next_frame true true part ≡ wait
      → length cs < fuel
      → Got i t seq es (stream (text_frames seq cs) part) a
      → Got i u (number_after seq cs) (es ++ shown ps) part (frames_loop S env W i fd fuel a)
  unfolding frames_loop Decrypts AllSent text_frames number_after shown stream
  loop-Got cs ps t u seq zero part es a sent d w f g = absurd (omega arith)
  loop-Got [] [] t u seq (suc fuel) part es a sent d w f g =
      simp (g.ready.has, room, g.buffer, w)
        (subst (λ v. Got i v seq (es ++ []) part a) d
          (subst (λ fs. Got i t seq fs part a) (sym (append_nil es)) g))
  loop-Got [] (p ∷ ps) t u seq (suc fuel) part es a sent d w f g = absurd d
  loop-Got (c ∷ cs) [] t u seq (suc fuel) part es a sent d w f g = absurd d
  loop-Got (c ∷ cs) (p ∷ ps) t u seq (suc fuel) part es a (v, sent) (t', e, n, d) w f g =
      let rest = stream (text_frames ((seq + 1) % u32_mod) cs) part in
      let b = with_buf a i rest in
      let q = record (a.peers i) { recv_buf = rest } in
      let same = slot_same a i q in
      let ready : Ready i t seq b = record {
        has = ap (λ r. r.session) same ∙ g.ready.has;
        expects = ap (λ r. r.rx_seq) same ∙ g.ready.expects;
        flushed = ap (λ (r : Peer). r.queue_flushed || a.ghost_mode) same ∙ g.ready.flushed;
      } in
      let found : next_frame true true (a.peers i).recv_buf
          ≡ frame (header S env W i fd seq c) c rest =
        ap (next_frame true true) g.buffer ∙ whole_frame (header S env W i fd seq c) c rest v in
      let after =
        text-Got S env W i fd b t t' seq c p rest es text_room
          (record { ready = ready; effects = g.effects; buffer = ap (λ r. r.recv_buf) same }) e n in
      let here : next_frame (has_session (a.peers i).session) W.payload_alloc (a.peers i).recv_buf
          ≡ frame (header S env W i fd seq c) c rest =
        ap (λ o. next_frame (has_session o) W.payload_alloc (a.peers i).recv_buf) g.ready.has
        ∙ ap (λ r. next_frame true r (a.peers i).recv_buf) room
        ∙ found in
      rw here (
        subst
          (λ r.
            Got i u (number_after ((seq + 1) % u32_mod) cs)
              (es ++ (ui_print_incoming (c_string (length p) p) ++ shown ps)) part
              (and_next r (λ b'. frames_loop S env W i fd fuel b')))
          (sym (frame-text S env W i fd b t seq c ready))
          (subst
            (λ fs.
              Got i u (number_after ((seq + 1) % u32_mod) cs) fs part
                (frames_loop S env W i fd fuel (on_text S env W i b t c)))
            (append_assoc es (ui_print_incoming (c_string (length p) p)) (shown ps))
            (loop-Got cs ps t' u ((seq + 1) % u32_mod) fuel part _ _ sent d w (omega arith) after)))

  stream_long :
      (cs : List Bytes) (seq : ℕ) (part : Bytes)
      → length cs ≤ length (stream (text_frames seq cs) part)
  unfolding stream text_frames
  stream_long [] seq part = omega arith
  stream_long (c ∷ cs) seq part =
      let rest = stream (text_frames ((seq + 1) % u32_mod) cs) part in
      let l = length-encode (header S env W i fd seq c) (c ++ rest) in
      let m = length-append c rest in
      let ih = stream_long cs ((seq + 1) % u32_mod) part in omega arith

  -- The bytes of one read, behind those that waited.
  pub bytes-Got :
      (cs ps : List Bytes) (t u : Session) (seq : ℕ) (buf bytes part : Bytes) (es : List Effect)
      (a : App)
      → AllSent (text_frames seq cs)
      → Decrypts S t cs ps u
      → next_frame true true part ≡ wait
      → buf ++ bytes ≡ stream (text_frames seq cs) part
      → Got i t seq es buf a
      → Got i u (number_after seq cs) (es ++ shown ps) part (on_bytes S env W i fd a bytes)
  unfolding on_bytes process_peer_frames
  bytes-Got cs ps t u seq buf bytes part es a sent d w e g =
      let q = record (a.peers i) {
        recv_buf = (a.peers i).recv_buf ++ bytes;
        last_active = env.now;
      } in
      let b = set_peer a i q in
      let same = slot_same a i q in
      let content : (b.peers i).recv_buf ≡ stream (text_frames seq cs) part =
        ap (λ r. r.recv_buf) same ∙ ap (λ x. x ++ bytes) g.buffer ∙ e in
      let l = stream_long cs seq part in
      let m = ap (λ (x : Bytes). length x) content in
      loop-Got cs ps t u seq (suc (length (b.peers i).recv_buf)) part es b sent d w (omega arith)
        (record {
          ready = record {
            has = ap (λ r. r.session) same ∙ g.ready.has;
            expects = ap (λ r. r.rx_seq) same ∙ g.ready.expects;
            flushed = ap (λ (r : Peer). r.queue_flushed || a.ghost_mode) same ∙ g.ready.flushed;
          };
          effects = g.effects;
          buffer = content;
        })
