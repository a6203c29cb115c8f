-- ===== src/Receive/Pieces.antt =====
-- The bytes of a connection arrive in pieces, and process_peer_frames of src/event_loop.c runs after
-- each of them on what is in the buffer.
use noxtor_cli.Prelude.{
  join, append_assoc, append_nil, ℕ, suc, ◌+◌, ◌≤◌, ◌<◌, ◌≡◌, refl, ap, sym, subst, ◌∙◌, arith,
  true, List, [], ◌∷◌, ◌++◌, length, take, Bool-cases, inl, inr, ltb,
}
use noxtor_cli.Common.{Bytes}
use noxtor_cli.Wire.{FrameHeader, frame_header_encode}
use noxtor_cli.Receive.Framing.{wait, next_frame, split_frames}
use noxtor_cli.Receive.Stream.{
  IsSent, AllSent, stream, frame_bytes, split_frames-stuck, part_frame, length-encode,
}

abbrev Frames : Type 0
Frames = List (FrameHeader × Bytes)

abbrev before : Frames → Frames × Bytes → Frames × Bytes
before fs (gs, rest) = (fs ++ gs, rest)

-- The frames that the pieces give, with the bytes that stay in the buffer.
unfoldable pub receive : ℕ → Bytes → List Bytes → Frames × Bytes
receive fuel buf [] = ([], buf)
receive fuel buf (p ∷ ps) =
    let (fs, rest) = split_frames true true fuel (buf ++ p) in before fs (receive fuel rest ps)

head_or : Bytes → ℕ
head_or [] = 0
head_or (x ∷ xs) = x

tail_of : Bytes → Bytes
tail_of [] = []
tail_of (x ∷ xs) = xs

-- Two ways to cut one text: the longer first part begins with the shorter.
longer :
    (f z x y : Bytes)
    → x ++ y ≡ f ++ z
    → length f ≤ length x
    → (x' : Bytes) × (x ≡ f ++ x') × (x' ++ y ≡ z)
unfolding head_or tail_of
longer [] z x y e l = (x, refl, e)
longer (c ∷ f) z [] y e l = absurd (omega arith)
longer (c ∷ f) z (d ∷ x) y e l =
    let h : d ≡ c = ap head_or e in
    let (x', p, q) = longer f z x y (ap tail_of e) (omega arith) in (x', rw (h, p) refl, q)

shorter : (f z x y : Bytes) → x ++ y ≡ f ++ z → length x ≤ length f → x ≡ take (length x) f
unfolding head_or tail_of
shorter f z [] y e l = refl
shorter [] z (d ∷ x) y e l = absurd (omega arith)
shorter (c ∷ f) z (d ∷ x) y e l =
    let h : d ≡ c = ap head_or e in
    let p = shorter f z x y (ap tail_of e) (omega arith) in ap (λ b. b ∷ x) h ∙ ap (λ xs. c ∷ xs) p

empty_sent : AllSent []
unfolding AllSent
empty_sent = tt

stream_nil : (rest : Bytes) → stream [] rest ≡ rest
unfolding stream
stream_nil rest = refl

-- Where a stream is cut, there are whole frames and bytes that wait.
pub record Cut (fs : Frames) (x y : Bytes) : Type 0 where
  pub whole : Frames
  pub later : Frames
  pub part : Bytes
  pub parted : fs ≡ whole ++ later
  pub shape : x ≡ stream whole part
  pub waits : next_frame true true part ≡ wait
  pub joins : part ++ y ≡ stream later []
  pub whole_sent : AllSent whole
  pub later_sent : AllSent later
  pub few : length whole ≤ length fs
  pub fewer : length later ≤ length fs

pub nothing_waits : next_frame true true [] ≡ wait
unfolding next_frame
nothing_waits = refl

waiting :
    (h : FrameHeader) (q x z y : Bytes)
    → IsSent h q
    → x ++ y ≡ frame_bytes h q ++ z
    → length x < length (frame_bytes h q)
    → next_frame true true x ≡ wait
unfolding frame_bytes
waiting h q x z y v e l =
    let full = v.full in
    let size = length-encode h q in
    subst (λ buf. next_frame true true buf ≡ wait)
      (sym (shorter (frame_bytes h q) z x y e (omega arith)))
      (part_frame h q (length x) v (omega arith))

pub cut : (fs : Frames) (x y : Bytes) → AllSent fs → x ++ y ≡ stream fs [] → Cut fs x y
unfolding AllSent stream frame_bytes
cut [] [] y a e = record {
  whole = [];
  later = [];
  part = [];
  parted = refl;
  shape = refl;
  waits = nothing_waits;
  joins = e;
  whole_sent = tt;
  later_sent = tt;
  few = omega arith;
  fewer = omega arith;
}
cut [] (d ∷ x) y a e = absurd (let l : length (d ∷ (x ++ y)) ≡ 0 = ap length e in omega arith)
cut ((h, q) ∷ fs) x y (v, a) e =
    let full = v.full in
    let e' : x ++ y ≡ frame_bytes h q ++ stream fs [] =
      e ∙ sym (append_assoc (frame_header_encode h) q (stream fs [])) in
    let size : length (frame_bytes h q) ≡ 13 + length q = length-encode h q in
    elim (Bool-cases (ltb (length x) (length (frame_bytes h q)))) [
      | inl less ↦ record {
        whole = [];
        later = (h, q) ∷ fs;
        part = x;
        parted = refl;
        shape = refl;
        waits = waiting h q x (stream fs []) y v e' (ground arith);
        joins = e;
        whole_sent = tt;
        later_sent = (v, a);
        few = omega arith;
        fewer = omega arith;
      }
      | inr more ↦
          let (x', p, r) = longer (frame_bytes h q) (stream fs []) x y e' (ground arith) in
          let c = cut fs x' y a r in
          let few = c.few in
          let fewer = c.fewer in
          record {
            whole = (h, q) ∷ c.whole;
            later = c.later;
            part = c.part;
            parted = ap (λ gs. (h, q) ∷ gs) c.parted;
            shape =
                p
                ∙ (append_assoc (frame_header_encode h) q x'
                    ∙ ap (λ z. frame_header_encode h ++ (q ++ z)) c.shape);
            waits = c.waits;
            joins = c.joins;
            whole_sent = (v, c.whole_sent);
            later_sent = c.later_sent;
            few = omega arith;
            fewer = omega arith;
          }
    ]

with_nothing : Frames → Frames × Bytes
with_nothing fs = (fs, [])

-- Nothing is left when the stream ends with its last frame.
ended :
    (fs : Frames) (buf : Bytes)
    → AllSent fs
    → next_frame true true buf ≡ wait
    → buf ≡ stream fs []
    → ◌≡◌ {A = Frames × Bytes} ([], buf) (fs, [])
ended fs buf a w e =
    sym (split_frames-stuck [] buf (suc (length fs)) empty_sent w (omega arith))
    ∙ (ap (split_frames true true (suc (length fs))) (stream_nil buf ∙ e)
        ∙ split_frames-stuck fs [] (suc (length fs)) a nothing_waits (omega arith))

receive_from :
    (ps : List Bytes) (buf : Bytes) (fs : Frames) (fuel : ℕ)
    → AllSent fs
    → next_frame true true buf ≡ wait
    → buf ++ join ps ≡ stream fs []
    → length fs < fuel
    → receive fuel buf ps ≡ (fs, [])
unfolding receive with_nothing
receive_from [] buf fs fuel a w e f = ended fs buf a w (sym (append_nil buf) ∙ e)
receive_from (p ∷ ps) buf fs fuel a w e f =
    let c = cut fs (buf ++ p) (join ps) a (append_assoc buf p (join ps) ∙ e) in
    let few = c.few in
    let fewer = c.fewer in
    let got : split_frames true true fuel (buf ++ p) ≡ (c.whole, c.part) =
      ap (split_frames true true fuel) c.shape
      ∙ split_frames-stuck c.whole c.part fuel c.whole_sent c.waits (omega arith) in
    let ih = receive_from ps c.part c.later fuel c.later_sent c.waits c.joins (omega arith) in
    rw (got, ih) (ap with_nothing (sym c.parted))

-- Where the slot has its session and memory is not exhausted, however the connection cuts the
-- bytes of a sequence of valid frames into pieces, and where the loop may make more rounds than
-- there are frames, the receiver, starting with an empty buffer, gets exactly those frames in
-- their order, and nothing stays in its buffer.
pub receive-pieces :
    (fs : List (FrameHeader × Bytes)) (pieces : List Bytes) (fuel : ℕ)
    → AllSent fs
    → join pieces ≡ stream fs []
    → length fs < fuel
    → receive fuel [] pieces ≡ (fs, [])
receive-pieces fs pieces fuel a e f = receive_from pieces [] fs fuel a nothing_waits e f
