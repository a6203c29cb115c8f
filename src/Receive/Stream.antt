-- ===== src/Receive/Stream.antt =====
-- Frames come out of the receive buffer of src/event_loop.c as they were sent, however the
-- connection cuts their bytes into pieces.
use noxtor_cli.Prelude.{
  ℕ, zero, suc, ◌+◌, ◌-◌, ◌≤◌, ◌<◌, ◌≡◌, refl, ap, sym, subst, ◌∙◌, arith, true, false, not, ◌&&◌,
  ◌||◌, List, [], ◌∷◌, ◌++◌, ltb, ◌==◌, length, take, drop, length-append, length-take, Bool-cases,
  inl, inr,
}
use noxtor_cli.Common.{Bytes, ok, max_payload_len}
use noxtor_cli.Wire.{FrameHeader, frame_header_encode}
use noxtor_cli.Wire.RoundTrip.{IsFrame, decode-append}
use noxtor_cli.Receive.Framing.{
  wait, frame, needs_session, take_frame, next_frame, add_frame, split_frames,
}

-- A frame that the sender may make: a header of the protocol and a payload of its length, which is
-- not 0.
pub record IsSent (h : FrameHeader) (payload : Bytes) : Type 0 where
  pub header : IsFrame h
  pub full : length payload ≡ h.len
  pub not_empty : 1 ≤ h.len

unfoldable pub AllSent : List (FrameHeader × Bytes) → Type 0
AllSent [] = Unit {0}
AllSent ((h, payload) ∷ fs) = IsSent h payload × AllSent fs

unfoldable pub frame_bytes : FrameHeader → Bytes → Bytes
frame_bytes h payload = frame_header_encode h ++ payload

unfoldable pub stream : List (FrameHeader × Bytes) → Bytes → Bytes
stream [] rest = rest
stream ((h, payload) ∷ fs) rest = frame_header_encode h ++ (payload ++ stream fs rest)

take_front : (xs ys : Bytes) → take (length xs) (xs ++ ys) ≡ xs
take_front [] ys = refl
take_front (x ∷ xs) ys = ap (λ zs. x ∷ zs) (take_front xs ys)

drop_front : (xs ys : Bytes) → drop (length xs) (xs ++ ys) ≡ ys
drop_front [] ys = refl
drop_front (x ∷ xs) ys = drop_front xs ys

pub length-encode :
    (h : FrameHeader) (xs : Bytes) → length (frame_header_encode h ++ xs) ≡ 13 + length xs
unfolding frame_header_encode
length-encode h xs = omega arith

drop-encode :
    (h : FrameHeader) (xs : Bytes) (n : ℕ) → drop (13 + n) (frame_header_encode h ++ xs) ≡ drop n xs
unfolding frame_header_encode
drop-encode h xs n =
    let e : 13 + n ≡ suc (suc (suc (suc (suc (suc (suc (suc (suc (suc (suc (suc (suc n)))))))))))) =
      omega arith in
    rw e refl

take-encode :
    (h : FrameHeader) (xs : Bytes) (n : ℕ)
    → take (13 + n) (frame_header_encode h ++ xs) ≡ frame_header_encode h ++ take n xs
unfolding frame_header_encode
take-encode h xs n =
    let e : 13 + n ≡ suc (suc (suc (suc (suc (suc (suc (suc (suc (suc (suc (suc (suc n)))))))))))) =
      omega arith in
    rw e refl

no_wait : (kind : ℕ) → (needs_session kind && not true) ≡ false
no_wait kind = ground arith

taken :
    (buf : Bytes) (h : FrameHeader)
    → 1 ≤ h.len
    → h.len ≤ max_payload_len
    → 13 + h.len ≤ length buf
    → take_frame true true buf (ok h) ≡ frame h (take h.len (drop 13 buf)) (drop (13 + h.len) buf)
taken buf h pos fits long =
    let sane : (h.len == 0 || ltb max_payload_len h.len) ≡ false = ground arith in
    let there : ltb (length buf) (13 + h.len) ≡ false = ground arith in
    simp (sane, there, no_wait h.kind) refl

waits :
    (buf : Bytes) (h : FrameHeader)
    → 1 ≤ h.len
    → h.len ≤ max_payload_len
    → length buf < 13 + h.len
    → take_frame true true buf (ok h) ≡ wait
waits buf h pos fits short =
    let sane : (h.len == 0 || ltb max_payload_len h.len) ≡ false = ground arith in
    let there : ltb (length buf) (13 + h.len) ≡ true = ground arith in simp (sane, there) refl

-- A whole frame is taken, and the bytes behind it stay.
pub whole_frame :
    (h : FrameHeader) (payload rest : Bytes)
    → IsSent h payload
    → next_frame true true (frame_header_encode h ++ (payload ++ rest)) ≡ frame h payload rest
unfolding next_frame
whole_frame h payload rest v =
    let buf = frame_header_encode h ++ (payload ++ rest) in
    let l : length buf ≡ 13 + (length payload + length rest) =
      rw (length-encode h (payload ++ rest), length-append payload rest) refl in
    let full = v.full in
    let long : ltb (length buf) 13 ≡ false = ground arith in
    let parts : frame h (take h.len (drop 13 buf)) (drop (13 + h.len) buf) ≡ frame h payload rest =
      rw
        (
          drop-encode h (payload ++ rest) h.len,
          drop-encode h (payload ++ rest) 0,
          ← full,
          take_front payload rest,
          drop_front payload rest,
        )
        refl in
    rw (long, decode-append h (payload ++ rest) v.header)
      (taken buf h v.not_empty v.header.fits (omega arith) ∙ parts)

behind_header :
    (h : FrameHeader) (payload : Bytes) (k : ℕ)
    → IsSent h payload
    → k < h.len
    → next_frame true true (frame_header_encode h ++ take k payload) ≡ wait
unfolding next_frame
behind_header h payload k v lt =
    let full = v.full in
    let l = length-encode h (take k payload) in
    let t = length-take k payload in
    let long : ltb (length (frame_header_encode h ++ take k payload)) 13 ≡ false = ground arith in
    rw (long, decode-append h (take k payload) v.header)
      (waits (frame_header_encode h ++ take k payload) h v.not_empty v.header.fits (omega arith))

-- A part of a frame waits for the rest of it.
pub part_frame :
    (h : FrameHeader) (payload : Bytes) (n : ℕ)
    → IsSent h payload
    → n < 13 + h.len
    → next_frame true true (take n (frame_bytes h payload)) ≡ wait
unfolding next_frame frame_bytes
part_frame h payload n v lt = elim (Bool-cases (ltb n 13)) [
  | inl few ↦
      let t = length-take n (frame_header_encode h ++ payload) in
      let l = length-encode h payload in
      let short : ltb (length (take n (frame_header_encode h ++ payload))) 13 ≡ true =
        ground arith in
      rw short refl
  | inr many ↦
      let e : n ≡ 13 + (n - 13) = ground arith in
      subst (λ buf. next_frame true true buf ≡ wait)
        (sym
          (ap (λ m. take m (frame_header_encode h ++ payload)) e ∙ take-encode h payload (n - 13)))
        (behind_header h payload (n - 13) v (ground arith))
]

one_round :
    (fuel : ℕ) (h : FrameHeader) (payload rest : Bytes)
    → IsSent h payload
    → split_frames true true (suc fuel) (frame_header_encode h ++ (payload ++ rest))
      ≡ add_frame h payload (split_frames true true fuel rest)
unfolding split_frames
one_round fuel h payload rest v = rw (whole_frame h payload rest v) refl

-- The loop takes whole frames, and stops before bytes that have to wait.
pub split_frames-stuck :
    (fs : List (FrameHeader × Bytes)) (rest : Bytes) (fuel : ℕ)
    → AllSent fs
    → next_frame true true rest ≡ wait
    → length fs < fuel
    → split_frames true true fuel (stream fs rest) ≡ (fs, rest)
unfolding AllSent stream split_frames
split_frames-stuck fs rest zero a w f = absurd (omega arith)
split_frames-stuck [] rest (suc fuel) a w f = rw w refl
split_frames-stuck ((g, q) ∷ fs) rest (suc fuel) (v, a) w f =
    one_round fuel g q (stream fs rest) v
    ∙ ap (add_frame g q) (split_frames-stuck fs rest fuel a w (omega arith))

-- Where the slot has its session, memory is not exhausted and the loop may make more rounds than
-- there are frames, a buffer that holds whole frames and a part of one more gives exactly those
-- frames in their order with their payloads, and keeps the part for the bytes to come.
split_frames-stream :
    (fs : List (FrameHeader × Bytes)) (h : FrameHeader) (payload : Bytes) (n fuel : ℕ)
    → AllSent fs
    → IsSent h payload
    → n < 13 + length payload
    → length fs < fuel
    → split_frames true true fuel (stream fs (take n (frame_bytes h payload)))
      ≡ (fs, take n (frame_bytes h payload))
split_frames-stream fs h payload n fuel a v lt f =
    let full = v.full in
    split_frames-stuck fs (take n (frame_bytes h payload)) fuel a
      (part_frame h payload n v (omega arith)) f
