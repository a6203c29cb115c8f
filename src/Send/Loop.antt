-- ===== src/Send/Loop.antt =====
-- The while loop of send_segmented_message_to (src/stdin_handler.c): what its frames leave.
use noxtor_cli.Prelude.{
  join, ℕ, zero, suc, ◌+◌, ◌≡◌, ◌≤◌, ◌<◌, refl, ap, sym, subst, ◌∙◌, [], ◌∷◌, ◌++◌, leb, length,
  drop, arith, Bool-cases, inl, inr, append_nil, append_assoc, drop_all, drop_add, take-append-drop,
}
use noxtor_cli.Common.{Bytes, Err, Result, ok, err, uint64_max}
use noxtor_cli.Sodium.{Sodium, SodiumLaws}
use noxtor_cli.Noise.Transport.{send_all}
use noxtor_cli.Peer.Types.{App, Env}
use noxtor_cli.Send.Chunks.{next_chunk_size, next_chunk_size-IsCut}
use noxtor_cli.Send.Segmented.{Kernel, send_text, nul, chunk_at, and_then, send_loop}
use noxtor_cli.Send.Frames.{frames}
use noxtor_cli.Send.Answers.{InStep, TakesAll, CutsLast, Progress}
use noxtor_cli.Send.OneFrame.{Taken, OneFrame, send_text-OneFrame}

and_then_id : (r : App × Result (Unit {0})) → and_then r (λ b. (b, ok tt)) ≡ r
and_then_id (a, ok u) = refl
and_then_id (a, err e) = refl

module _ (S : Sodium) (L : SodiumLaws S) (env : Env) (os : Kernel) (i : ℕ) (fd : ℕ) where
  -- A frame that was taken is put before what the rest of the message leaves.
  more-Progress :
      (k : ℕ) (a : App) (v : InStep (a.peers i)) (text rest : Bytes) (b : App)
      (w : Taken S L env os i fd k a v.current (nul text) b) (r : App × Result (Unit {0}))
      → Progress S os i fd (suc k) b w.in_step.current rest r
      → Progress S os i fd k a v.current (text ++ rest) r
  unfolding Progress TakesAll CutsLast send_all frames
  more-Progress k a v text rest b w (c, ok u) d = record {
    texts = text ∷ d.texts;
    cts = w.ct ∷ d.cts;
    in_step = d.in_step;
    whole = ap (λ x. text ++ x) d.whole;
    encrypted = rw (w.encrypted, d.encrypted) refl;
    taken = (w.taken, subst (λ n. TakesAll os (suc k) n d.cts) w.numbered d.taken);
    written = d.written ∙ rw (w.recorded, w.numbered) (append_assoc a.effects _ _);
  }
  more-Progress k a v text rest b w (c, err Err.io) d = record {
    texts = text ∷ d.texts;
    cts = w.ct ∷ d.cts;
    later = d.later;
    after = d.after;
    parted = append_assoc text (join d.texts) d.later ∙ ap (λ x. text ++ x) d.parted;
    encrypted = rw (w.encrypted, d.encrypted) refl;
    cut = inr (w.taken, subst (λ n. CutsLast os (suc k) n d.cts) w.numbered d.cut);
    stopped = d.stopped;
    clean = d.clean;
  }
  more-Progress k a v text rest b w (c, err Err.crypto) d = record {
    texts = text ∷ d.texts;
    cts = w.ct ∷ d.cts;
    text = d.text;
    later = d.later;
    after = d.after;
    in_step = d.in_step;
    parted = append_assoc text (join d.texts) (d.text ++ d.later) ∙ ap (λ x. text ++ x) d.parted;
    encrypted = rw (w.encrypted, d.encrypted) refl;
    refused = d.refused;
    taken = (w.taken, subst (λ n. TakesAll os (suc k) n d.cts) w.numbered d.taken);
    written = d.written ∙ rw (w.recorded, w.numbered) (append_assoc a.effects _ _);
  }
  more-Progress k a v text rest b w (c, err _) d = absurd d

  -- The first frame, and then the rest where it was taken.
  and_then-Progress :
      (k : ℕ) (a : App) (v : InStep (a.peers i)) (text rest : Bytes) (r : App × Result (Unit {0}))
      (f : App → App × Result (Unit {0}))
      → OneFrame S L env os i fd k a v.current (nul text) r
      → ((b : App) (w : Taken S L env os i fd k a v.current (nul text) b)
          → Progress S os i fd (suc k) b w.in_step.current rest (f b))
      → Progress S os i fd k a v.current (text ++ rest) (and_then r f)
  unfolding OneFrame Progress TakesAll CutsLast send_all frames
  and_then-Progress k a v text rest (b, ok u) f w g =
      more-Progress k a v text rest b w (f b) (g b w)
  and_then-Progress k a v text rest (b, err Err.io) f c g = record {
    texts = text ∷ [];
    cts = c.ct ∷ [];
    later = rest;
    after = c.after;
    parted = ap (λ x. x ++ rest) (append_nil text);
    encrypted = rw c.encrypted refl;
    cut = inl (refl, c.cut);
    stopped = c.stopped;
    clean = c.clean;
  }
  and_then-Progress k a v text rest (b, err Err.crypto) f (w, e, s) g = record {
    texts = [];
    cts = [];
    text = text;
    later = rest;
    after = v.current;
    in_step = w;
    parted = refl;
    encrypted = refl;
    refused = e;
    taken = tt;
    written = s ∙ sym (append_nil a.effects);
  }
  and_then-Progress k a v text rest (b, err _) f c g = absurd c

  nothing_left :
      (k : ℕ) (a : App) (v : InStep (a.peers i)) → Progress S os i fd k a v.current [] (a, ok tt)
  unfolding Progress TakesAll send_all frames
  nothing_left k a v = record {
    texts = [];
    cts = [];
    in_step = v;
    whole = refl;
    encrypted = refl;
    taken = tt;
    written = sym (append_nil a.effects);
  }

  pub send_loop-Progress :
      (msg : Bytes) (fuel k offset : ℕ) (a : App) (v : InStep (a.peers i))
      → length msg ≤ uint64_max
      → offset ≤ length msg
      → length msg < fuel + offset
      → Progress S os i fd k a v.current
          (drop offset msg)
          (send_loop S env os i fd msg fuel k offset a)
  unfolding send_loop
  send_loop-Progress msg zero k offset a v m o h = absurd (omega arith)
  send_loop-Progress msg (suc fuel) k offset a v m o h =
      elim (Bool-cases (leb (length msg) offset)) [
        | inl done ↦
            let end : offset ≡ length msg = ground arith in
            rw (done, end, drop_all msg) (nothing_left k a v)
        | inr more ↦
            let size = next_chunk_size msg offset (length msg) in
            let (lo, hi, within, c) =
              next_chunk_size-IsCut msg offset (length msg) (ground arith) m in
            let split : chunk_at msg offset ++ drop (offset + size) msg ≡ drop offset msg =
              ap (λ x. chunk_at msg offset ++ x) (drop_add offset size msg)
              ∙ take-append-drop size (drop offset msg) in
            rw more (
              subst
                (λ x. Progress S os i fd k a v.current x (
                  and_then
                    (send_text S env os k i fd a (a.peers i).session (nul (chunk_at msg offset)))
                    (λ b. send_loop S env os i fd msg fuel (suc k) (offset + size) b)))
                split
                (and_then-Progress k a v (chunk_at msg offset) (drop (offset + size) msg) _ _
                  (send_text-OneFrame S L env os i fd k a (nul (chunk_at msg offset)) v)
                  (λ b w.
                    send_loop-Progress msg fuel (suc k) (offset + size) b w.in_step m within
                      (omega arith))))
      ]

  -- One frame is a message of one piece.
  pub one-Progress :
      (a : App) (v : InStep (a.peers i)) (text : Bytes) (r : App × Result (Unit {0}))
      → OneFrame S L env os i fd 0 a v.current (nul text) r
      → Progress S os i fd 0 a v.current text r
  one-Progress a v text r o =
      subst (λ x. Progress S os i fd 0 a v.current x r) (append_nil text)
        (subst (λ z. Progress S os i fd 0 a v.current (text ++ []) z) (and_then_id r)
          (and_then-Progress 0 a v text [] r (λ b. (b, ok tt)) o
            (λ b w. nothing_left 1 b w.in_step)))
