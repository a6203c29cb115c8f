-- ===== src/Receive/Texts.antt =====
-- The text frames of a session in process_peer_frames of src/event_loop.c: decrypted and shown in
-- their order.
use noxtor_cli.Prelude.{
  ℕ, suc, ◌+◌, ◌%◌, ◌≤◌, ◌≡◌, refl, ap, sym, subst, ◌∙◌, arith, true, ◌||◌, List, [], ◌∷◌, ◌++◌,
  some, ◌==◌, length,
}
use noxtor_cli.Common.{Bytes, u32_mod, c_string}
use noxtor_cli.Sodium.{Sodium}
use noxtor_cli.Noise.Cipher.{Session, noise_decrypt}
use noxtor_cli.Wire.{FrameHeader, frame_magic, msg_text}
use noxtor_cli.Peer.Types.{Peer, App, Env, Effect, set_peer}
use noxtor_cli.Peer.Slot.{slot_same}
use noxtor_cli.File.Receive.{emit}
use noxtor_cli.Receive.Frames.{
  World, ui_print_incoming, flush_queue, counted, on_plain, on_text, on_data, on_frame,
}

-- The slot has this session and expects this number, and nothing is to be sent from the queue.
pub record Ready (i : ℕ) (t : Session) (seq : ℕ) (a : App) : Type 0 where
  pub has : (a.peers i).session ≡ some t
  pub expects : (a.peers i).rx_seq ≡ seq
  pub flushed : ((a.peers i).queue_flushed || a.ghost_mode) ≡ true

unfoldable pub Decrypts : Sodium → Session → List Bytes → List Bytes → Session → Type 0
Decrypts S t [] [] u = t ≡ u
Decrypts S t [] (p ∷ ps) u = ⊥
Decrypts S t (c ∷ cs) [] u = ⊥
Decrypts S t (c ∷ cs) (p ∷ ps) u =
    (v : Session) × (noise_decrypt S t c ≡ (v, some p)) × (1 ≤ length p) × Decrypts S v cs ps u

unfoldable pub text_frames : ℕ → List Bytes → List (FrameHeader × Bytes)
text_frames seq [] = []
text_frames seq (c ∷ cs) =
    (record { magic = frame_magic; kind = msg_text; seq = seq; len = length c }, c)
    ∷ text_frames ((seq + 1) % u32_mod) cs

unfoldable pub number_after : ℕ → List Bytes → ℕ
number_after seq [] = seq
number_after seq (c ∷ cs) = number_after ((seq + 1) % u32_mod) cs

-- What the screen is given for the plaintexts.
unfoldable pub shown : List Bytes → List Effect
shown [] = []
shown (p ∷ ps) = ui_print_incoming (c_string (length p) p) ++ shown ps

-- The slot after the frames, with these bytes in its buffer.
pub record Got (i : ℕ) (t : Session) (seq : ℕ) (es : List Effect) (buf : Bytes) (a : App)
    : Type 0 where
  pub ready : Ready i t seq a
  pub effects : a.effects ≡ es
  pub buffer : (a.peers i).recv_buf ≡ buf

module _ (S : Sodium) (env : Env) (W : World) (i fd : ℕ) where
  quiet_flush :
      (a : App) → ((a.peers i).queue_flushed || a.ghost_mode) ≡ true → flush_queue S env W i a ≡ a
  unfolding flush_queue
  quiet_flush a h = rw h refl

  plain-Got :
      (a : App) (t : Session) (seq : ℕ) (p buf : Bytes) (es : List Effect)
      → Got i t seq es buf a
      → 1 ≤ length p
      → Got i t
          ((seq + 1) % u32_mod)
          (es ++ ui_print_incoming (c_string (length p) p))
          buf
          (on_plain S env W i a (some p))
  plain-Got a t seq [] buf es g l = absurd (omega arith)
  plain-Got a t seq (x ∷ xs) buf es g l =
      let b = emit a (ui_print_incoming (c_string (suc (length xs)) (x ∷ xs))) in
      let p = record (b.peers i) {
        rx_seq = ((b.peers i).rx_seq + 1) % u32_mod;
        last_active = env.now;
      } in
      let same = slot_same b i p in
      subst
        (λ c.
          Got i t ((seq + 1) % u32_mod)
            (es ++ ui_print_incoming (c_string (suc (length xs)) (x ∷ xs))) buf (counted env i c))
        (sym (quiet_flush b g.ready.flushed))
        (record {
          ready = record {
            has = ap (λ q. q.session) same ∙ g.ready.has;
            expects = ap (λ q. q.rx_seq) same ∙ ap (λ n. (n + 1) % u32_mod) g.ready.expects;
            flushed = ap (λ (q : Peer). q.queue_flushed || a.ghost_mode) same ∙ g.ready.flushed;
          };
          effects =
              ap (λ fs. fs ++ ui_print_incoming (c_string (suc (length xs)) (x ∷ xs))) g.effects;
          buffer = ap (λ q. q.recv_buf) same ∙ g.buffer;
        })

  pub text-Got :
      (a : App) (t v : Session) (seq : ℕ) (c p buf : Bytes) (es : List Effect)
      → W.text_alloc ≡ true
      → Got i t seq es buf a
      → noise_decrypt S t c ≡ (v, some p)
      → 1 ≤ length p
      → Got i v
          ((seq + 1) % u32_mod)
          (es ++ ui_print_incoming (c_string (length p) p))
          buf
          (on_text S env W i a t c)
  unfolding on_text
  text-Got a t v seq c p buf es room g d l =
      let q = record (a.peers i) { session = some v } in
      let same = slot_same a i q in
      simp (room, d)
        (plain-Got (set_peer a i q) v seq p buf es
          (record {
            ready = record {
              has = ap (λ r. r.session) same;
              expects = ap (λ r. r.rx_seq) same ∙ g.ready.expects;
              flushed = ap (λ (r : Peer). r.queue_flushed || a.ghost_mode) same ∙ g.ready.flushed;
            };
            effects = g.effects;
            buffer = ap (λ r. r.recv_buf) same ∙ g.buffer;
          })
          l)

  abbrev pub header : ℕ → Bytes → FrameHeader
  header seq c = record { magic = frame_magic; kind = msg_text; seq = seq; len = length c }

  -- One frame of text.
  pub frame-text :
      (a : App) (t : Session) (seq : ℕ) (c : Bytes)
      → Ready i t seq a
      → on_frame S env W i fd a (header seq c) c ≡ (on_text S env W i a t c, true)
  unfolding on_frame on_data
  frame-text a t seq c r =
      let next : (seq == (a.peers i).rx_seq) ≡ true = (let e = r.expects in ground arith) in
      simp (r.has, next) refl
