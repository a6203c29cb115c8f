-- ===== src/Receive/Feed.antt =====
-- The text frames of a session come in pieces of any size, and the loop of src/event_loop.c runs after
-- each of them.
use noxtor_cli.Prelude.{
  join, ℕ, ◌+◌, ◌%◌, ◌≤◌, ◌≡◌, refl, ap, sym, subst, ◌∙◌, arith, Bool, true, false, List, [], ◌∷◌,
  ◌++◌, length, append_assoc, append_nil,
}
use noxtor_cli.Common.{Bytes, u32_mod, c_string}
use noxtor_cli.Sodium.{Sodium}
use noxtor_cli.Noise.Cipher.{Session}
use noxtor_cli.Wire.{FrameHeader, frame_magic, msg_text}
use noxtor_cli.Peer.Types.{App, Env, Effect}
use noxtor_cli.Receive.Framing.{Round, wait, reset, frame, next_frame}
use noxtor_cli.Receive.Stream.{AllSent, stream, whole_frame}
use noxtor_cli.Receive.Pieces.{cut}
use noxtor_cli.Receive.Frames.{World, ui_print_incoming, on_bytes}
use noxtor_cli.Receive.Texts.{Got, Decrypts, text_frames, number_after, shown}
use noxtor_cli.Receive.Conversation.{bytes-Got}

abbrev Frames : Type 0
Frames = List (FrameHeader × Bytes)

-- The ciphertexts of the first frames and of the later ones.
record Parted (S : Sodium) (t u : Session) (seq : ℕ) (cs ps : List Bytes) (whole later : Frames)
    : Type 0 where
  first : List Bytes
  second : List Bytes
  texts : List Bytes
  others : List Bytes
  between : Session
  is_whole : whole ≡ text_frames seq first
  is_later : later ≡ text_frames (number_after seq first) second
  opens : Decrypts S t first texts between
  goes_on : Decrypts S between second others u
  all : shown ps ≡ shown texts ++ shown others
  number : number_after (number_after seq first) second ≡ number_after seq cs
  few : length first ≤ length whole

head_frame : FrameHeader × Bytes → Frames → FrameHeader × Bytes
head_frame d [] = d
head_frame d (f ∷ fs) = f

tail_frames : Frames → Frames
tail_frames [] = []
tail_frames (f ∷ fs) = fs

part_texts :
    (S : Sodium) (t u : Session) (seq : ℕ) (cs ps : List Bytes) (whole later : Frames)
    → Decrypts S t cs ps u
    → text_frames seq cs ≡ whole ++ later
    → Parted S t u seq cs ps whole later
unfolding Decrypts text_frames number_after shown head_frame tail_frames
part_texts S t u seq cs ps [] later d e = record {
  first = [];
  second = cs;
  texts = [];
  others = ps;
  between = t;
  is_whole = refl;
  is_later = sym e;
  opens = refl;
  goes_on = d;
  all = refl;
  number = refl;
  few = omega arith;
}
part_texts S t u seq [] ps (f ∷ whole) later d e =
    absurd
      (let l : 0 ≡ length (f ∷ (whole ++ later)) = ap (λ (fs : Frames). length fs) e in omega arith)
part_texts S t u seq (c ∷ cs) [] (f ∷ whole) later d e = absurd d
part_texts S t u seq (c ∷ cs) (p ∷ ps) (f ∷ whole) later (v, x, n, d) e =
    let r = part_texts S v u ((seq + 1) % u32_mod) cs ps whole later d (ap tail_frames e) in
    let few = r.few in
    record {
      first = c ∷ r.first;
      second = r.second;
      texts = p ∷ r.texts;
      others = r.others;
      between = r.between;
      is_whole =
          ap (λ g. g ∷ whole) (sym (ap (head_frame f) e))
          ∙ ap
              (λ (fs : Frames).
                (record { magic = frame_magic; kind = msg_text; seq = seq; len = length c }, c)
                ∷ fs)
              r.is_whole;
      is_later = r.is_later;
      opens = (v, x, n, r.opens);
      goes_on = r.goes_on;
      all =
          ap (λ fs. ui_print_incoming (c_string (length p) p) ++ fs) r.all
          ∙ sym (
              append_assoc (ui_print_incoming (c_string (length p) p)) (shown r.texts)
                (shown r.others));
      number = r.number;
      few = omega arith;
    }

is_frame : Round → Bool
is_frame wait = false
is_frame reset = false
is_frame (frame h p r) = true

frame_found : (h : FrameHeader) (p r : Bytes) → frame h p r ≡ wait → ⊥
unfolding is_frame
frame_found h p r e = let b : true ≡ false = ap is_frame e in ground arith

-- One read after the other.
unfoldable pub feed : Sodium → Env → World → ℕ → ℕ → App → List Bytes → App
feed S env W i fd a [] = a
feed S env W i fd a (p ∷ ps) = feed S env W i fd (on_bytes S env W i fd a p) ps

module _ (S : Sodium) (env : Env) (W : World) (i fd : ℕ) (room : W.payload_alloc ≡ true)
    (text_room : W.text_alloc ≡ true) where
  ended :
      (cs ps : List Bytes) (t u : Session) (seq : ℕ) (buf : Bytes) (es : List Effect) (a : App)
      → AllSent (text_frames seq cs)
      → Decrypts S t cs ps u
      → next_frame true true buf ≡ wait
      → buf ≡ stream (text_frames seq cs) []
      → Got i t seq es buf a
      → Got i u (number_after seq cs) (es ++ shown ps) [] a
  unfolding Decrypts AllSent text_frames number_after shown stream
  ended [] [] t u seq buf es a sent d w e g =
      subst (λ v. Got i v seq (es ++ []) [] a) d
        (subst (λ fs. Got i t seq fs [] a) (sym (append_nil es))
          (subst (λ b. Got i t seq es b a) e g))
  ended [] (p ∷ ps) t u seq buf es a sent d w e g = absurd d
  ended (c ∷ cs) [] t u seq buf es a sent d w e g = absurd d
  ended (c ∷ cs) (p ∷ ps) t u seq buf es a (v, sent) d w e g = absurd (
      frame_found _ c _ (
        sym (whole_frame _ c (stream (text_frames ((seq + 1) % u32_mod) cs) []) v)
        ∙ ap (next_frame true true) (sym e)
        ∙ w))

  pub feed-Got :
      (pieces cs ps : List Bytes) (t u : Session) (seq : ℕ) (buf : Bytes) (es : List Effect)
      (a : App)
      → AllSent (text_frames seq cs)
      → Decrypts S t cs ps u
      → next_frame true true buf ≡ wait
      → buf ++ join pieces ≡ stream (text_frames seq cs) []
      → Got i t seq es buf a
      → Got i u (number_after seq cs) (es ++ shown ps) [] (feed S env W i fd a pieces)
  unfolding feed
  feed-Got [] cs ps t u seq buf es a sent d w e g =
      ended cs ps t u seq buf es a sent d w (sym (append_nil buf) ∙ e) g
  feed-Got (p ∷ pieces) cs ps t u seq buf es a sent d w e g =
      let c =
        cut (text_frames seq cs) (buf ++ p) (join pieces) sent
          (append_assoc buf p (join pieces) ∙ e) in
      let r = part_texts S t u seq cs ps c.whole c.later d c.parted in
      let here =
        bytes-Got S env W i fd room text_room r.first r.texts t r.between seq buf p c.part es a
          (subst AllSent r.is_whole c.whole_sent) r.opens c.waits
          (c.shape ∙ ap (λ fs. stream fs c.part) r.is_whole) g in
      let there =
        feed-Got pieces r.second r.others r.between u (number_after seq r.first) c.part
          (es ++ shown r.texts) (on_bytes S env W i fd a p) (subst AllSent r.is_later c.later_sent)
          r.goes_on c.waits (c.joins ∙ ap (λ fs. stream fs []) r.is_later) here in
      subst
        (λ n. Got i u n (es ++ shown ps) [] (feed S env W i fd (on_bytes S env W i fd a p) pieces))
        r.number
        (subst
          (λ fs.
            Got i u (number_after (number_after seq r.first) r.second) fs []
              (feed S env W i fd (on_bytes S env W i fd a p) pieces))
          (append_assoc es (shown r.texts) (shown r.others) ∙ ap (λ fs. es ++ fs) (sym r.all))
          there)
