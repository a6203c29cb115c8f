-- ===== src/Send/OneFrame.antt =====
-- One frame of text (src/stdin_handler.c): encrypted, numbered, and written as the system answers.
use noxtor_cli.Prelude.{
  ℕ, ◌+◌, ◌%◌, ◌≡◌, ◌≤◌, ◌<◌, refl, ap, ◌∙◌, true, [], ◌∷◌, ◌++◌, Option, none, some, ◌==◌, length,
  take, arith, Bool-cases, inl, inr, take_all,
}
use noxtor_cli.Common.{Bytes, Err, Result, ok, err, u32_mod, uint64_max}
use noxtor_cli.Sodium.{Sodium, SodiumLaws}
use noxtor_cli.Noise.Cipher.{Session, noise_encrypt, cipher_encrypt, encode_nonce}
use noxtor_cli.Peer.Types.{PeerState, PeerEvent, App, Env, write, set_peer}
use noxtor_cli.Peer.Slot.{slot_same}
use noxtor_cli.Peer.Cleanup.{IsClean, idle-IsClean}
use noxtor_cli.Send.Segmented.{Kernel, text_frame, emit, sent, finish_write, transmit, send_text}
use noxtor_cli.Send.Frames.{slot_twice}
use noxtor_cli.Send.Answers.{InStep, TakesFrame}

-- One encryption takes one nonce, or is refused and takes none.
OneNonce : Session → Session × Option Bytes → Type 0
OneNonce s (t, none) = (t.tx.has_key ≡ true) × (t.tx.n ≡ s.tx.n)
OneNonce s (t, some c) = (t.tx.has_key ≡ true) × (t.tx.n ≡ s.tx.n + 1) × (s.tx.n < uint64_max)

module _ (S : Sodium) (L : SodiumLaws S) (env : Env) (os : Kernel) (i : ℕ) (fd : ℕ) where
  -- A frame that the system took.
  pub record Taken (k : ℕ) (a : App) (s : Session) (text : Bytes) (b : App) : Type 0 where
    pub ct : Bytes
    pub in_step : InStep (b.peers i)
    pub encrypted : noise_encrypt S s text ≡ (in_step.current, some ct)
    pub taken : TakesFrame os k (a.peers i).tx_seq ct
    pub numbered : (b.peers i).tx_seq ≡ ((a.peers i).tx_seq + 1) % u32_mod
    pub recorded : b.effects ≡ a.effects ++ write fd (text_frame (a.peers i).tx_seq ct) ∷ []

  -- A frame that it did not take.
  pub record Cut (k : ℕ) (a : App) (s : Session) (text : Bytes) (b : App) : Type 0 where
    pub ct : Bytes
    pub after : Session
    pub encrypted : noise_encrypt S s text ≡ (after, some ct)
    pub cut : ¬ TakesFrame os k (a.peers i).tx_seq ct
    pub stopped : (b.peers i).state ≡ PeerState.idle
    pub clean : IsClean b i

  -- What one frame may leave.
  unfoldable pub OneFrame : ℕ → App → Session → Bytes → App × Result (Unit {0}) → Type 0
  OneFrame k a s text (b, ok u) = Taken k a s text b
  OneFrame k a s text (b, err Err.io) = Cut k a s text b
  OneFrame k a s text (b, err Err.crypto) =
      InStep (b.peers i) × ((noise_encrypt S s text).1 ≡ none) × (b.effects ≡ a.effects)
  OneFrame k a s text (b, err _) = ⊥

  encrypt-OneNonce :
      (s : Session) (text : Bytes)
      → s.tx.has_key ≡ true
      → s.tx.n ≤ uint64_max
      → OneNonce s (noise_encrypt S s text)
  unfolding noise_encrypt cipher_encrypt OneNonce
  encrypt-OneNonce s text k b =
      let (c, e) = L.encrypt_total s.tx.k (encode_nonce s.tx.n) [] text in ground arith

  -- The frame was encrypted, and the system answers.
  finish-OneFrame :
      (k : ℕ) (a : App) (v : InStep (a.peers i)) (text : Bytes) (t : Session) (ct : Bytes)
      → noise_encrypt S v.current text ≡ (t, some ct)
      → OneNonce v.current (t, some ct)
      → (w : Option ℕ) → os.writev k (length (text_frame (a.peers i).tx_seq ct)) ≡ w
      → OneFrame k a v.current text (
          finish_write S env i fd
            (text_frame (a.peers i).tx_seq ct)
            (set_peer a i (record (a.peers i) { session = some t }))
            w)
  unfolding finish_write OneFrame OneNonce sent TakesFrame
  finish-OneFrame k a v text t ct e (h, n, l) none q =
      let p = record (a.peers i) { session = some t } in
      let (x, st, c, rel) =
        idle-IsClean S env i (set_peer a i p) PeerEvent.peer_disconnected
          (rw (slot_same a i p) v.running) in
      record { ct = ct; after = t; encrypted = e; cut = λ z. cc; stopped = st; clean = c }
  finish-OneFrame k a v text t ct e (h, n, l) (some m) q =
      let p = record (a.peers i) { session = some t } in
      let frame = text_frame (a.peers i).tx_seq ct in
      let b = emit (set_peer a i p) (write fd (take m frame) ∷ []) in
      elim (Bool-cases (m == length frame)) [
        | inl full ↦
            let twice = slot_twice a i p env.now in
            let len : m ≡ length frame = ground arith in
            rw full (record {
              ct = ct;
              in_step = record {
                current = t;
                has_session = rw twice refl;
                keyed = h;
                bounded = omega arith;
                paired = rw (twice, v.paired, n) (omega arith);
                running = rw twice v.running;
              };
              encrypted = e;
              taken = q ∙ ap some len;
              numbered = rw twice refl;
              recorded =
                  ap (λ x. a.effects ++ write fd x ∷ [])
                    (ap (λ j. take j frame) len ∙ take_all frame);
            })
        | inr part ↦
            let (x, st, c, rel) =
              idle-IsClean S env i b PeerEvent.peer_disconnected (rw (slot_same a i p) v.running) in
            rw part (record {
              ct = ct;
              after = t;
              encrypted = e;
              cut = λ z. ground arith;
              stopped = st;
              clean = c;
            })
      ]

  transmit-OneFrame :
      (k : ℕ) (a : App) (v : InStep (a.peers i)) (text : Bytes) (r : Session × Option Bytes)
      → noise_encrypt S v.current text ≡ r
      → OneNonce v.current r
      → OneFrame k a v.current text (transmit S env os k i fd a r)
  unfolding transmit OneFrame OneNonce
  transmit-OneFrame k a v text (t, none) q (h, e) =
      let same = slot_same a i (record (a.peers i) { session = some t }) in
      (
        record {
          current = t;
          has_session = rw same refl;
          keyed = h;
          bounded = rw e v.bounded;
          paired = rw (same, e) v.paired;
          running = rw same v.running;
        },
        ap (λ (x : Session × Option Bytes). x.1) q,
        refl,
      )
  transmit-OneFrame k a v text (t, some c) q o =
      rw (slot_same a i (record (a.peers i) { session = some t })) (
        finish-OneFrame k a v text t c q o (os.writev k (length (text_frame (a.peers i).tx_seq c)))
          refl)

  -- One frame, whatever the system answers.
  pub send_text-OneFrame :
      (k : ℕ) (a : App) (text : Bytes) (v : InStep (a.peers i))
      → OneFrame k a v.current text (send_text S env os k i fd a (a.peers i).session text)
  unfolding send_text
  send_text-OneFrame k a text v = rw v.has_session (
      transmit-OneFrame k a v text (noise_encrypt S v.current text) refl
        (encrypt-OneNonce v.current text v.keyed v.bounded))
