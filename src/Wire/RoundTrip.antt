-- ===== src/Wire/RoundTrip.antt =====
-- The 13 bytes of a header and the header itself determine each other (src/network.c,
-- frame_header_encode and frame_header_decode).
use noxtor_cli.Prelude.{
  map, ℕ, ◌+◌, ◌*◌, ◌/◌, ◌%◌, ◌≤◌, ◌<◌, ◌≡◌, refl, [], ◌∷◌, ◌++◌, get_or, arith,
}
use noxtor_cli.Common.{Bytes, ok, u32_mod}
use noxtor_cli.Wire.{
  be32, FrameHeader, frame_header_encode, frame_header_decode, parse_header, check_header,
  frame_magic, frame_max_payload, msg_text, msg_ctrl,
}

-- A header that the protocol allows, with fields of their width.
pub record IsFrame (h : FrameHeader) : Type 0 where
  pub magic : h.magic ≡ frame_magic
  pub lowest : msg_text ≤ h.kind
  pub highest : h.kind ≤ msg_ctrl
  pub numbered : h.seq < u32_mod
  pub fits : h.len ≤ frame_max_payload

join :
    (n : ℕ)
    → n < u32_mod
    → n / 16777216 % 256 * 16777216 + n / 65536 % 256 * 65536 + n / 256 % 256 * 256 + n % 256 ≡ n
join n h = omega arith

parse-encode :
    (h : FrameHeader)
    → h.magic < u32_mod
    → h.seq < u32_mod
    → h.len < u32_mod
    → parse_header (frame_header_encode h) ≡ h
unfolding frame_header_encode
parse-encode h m s l = rw (join h.magic m, join h.seq s, join h.len l) refl

check_frame : (h : FrameHeader) → IsFrame h → check_header h ≡ ok h
unfolding check_header
check_frame h v =
    let m = v.magic in let a = v.lowest in let b = v.highest in let c = v.fits in ground arith

-- A header with the magic number, a known type, a length within the limit and a 32-bit number
-- comes out of the decoder as it went into the encoder.
pub decode-encode :
    (h : FrameHeader) → IsFrame h → frame_header_decode (frame_header_encode h) ≡ ok h
unfolding frame_header_decode
decode-encode h v =
    let m = v.magic in
    let f = v.fits in rw (parse-encode h (omega arith) v.numbered (omega arith)) (check_frame h v)

checked :
    (h g : FrameHeader)
    → check_header h ≡ ok g
    → (g ≡ h)
      × (h.magic ≡ frame_magic)
      × (msg_text ≤ h.kind)
      × (h.kind ≤ msg_ctrl)
      × (h.len ≤ frame_max_payload)
unfolding check_header
checked h g e = ground arith

abbrev join32 : ℕ → ℕ → ℕ → ℕ → ℕ
join32 a b c d = a * 16777216 + b * 65536 + c * 256 + d

split32 :
    (a b c d : ℕ) (rest : Bytes)
    → a < 256
    → b < 256
    → c < 256
    → d < 256
    → be32 (join32 a b c d) rest ≡ a ∷ b ∷ c ∷ d ∷ rest
split32 a b c d rest ha hb hc hd =
    let h1 : join32 a b c d / 16777216 % 256 ≡ a = omega arith in
    let h2 : join32 a b c d / 65536 % 256 ≡ b = omega arith in
    let h3 : join32 a b c d / 256 % 256 ≡ c = omega arith in
    let h4 : join32 a b c d % 256 ≡ d = omega arith in rw (h1, h2, h3, h4) refl

-- The header of a frame as it stands in a buffer.
abbrev pub header_bytes : Bytes → Bytes
header_bytes w = map (λ i. get_or w i 0) (0 ∷ 1 ∷ 2 ∷ 3 ∷ 4 ∷ 5 ∷ 6 ∷ 7 ∷ 8 ∷ 9 ∷ 10 ∷ 11 ∷ 12 ∷ [])

encode-parse :
    (w : Bytes)
    → ((i : ℕ) → get_or w i 0 < 256)
    → frame_header_encode (parse_header w) ≡ header_bytes w
unfolding frame_header_encode
encode-parse w b =
    rw
      (
        split32 (get_or w 0 0) (get_or w 1 0) (get_or w 2 0) (get_or w 3 0)
            (get_or w 4 0 ∷ be32 (parse_header w).seq (be32 (parse_header w).len [])) (b 0) (b 1)
            (b 2) (b 3),
        split32 (get_or w 5 0) (get_or w 6 0) (get_or w 7 0) (get_or w 8 0)
            (be32 (parse_header w).len []) (b 5) (b 6) (b 7) (b 8),
        split32 (get_or w 9 0) (get_or w 10 0) (get_or w 11 0) (get_or w 12 0) [] (b 9) (b 10)
            (b 11) (b 12),
      )
      refl

-- Whatever buffer of bytes below 256 the decoder accepts, the header it returns keeps the limits
-- of the protocol, and encoding it gives the 13 bytes back.
pub encode-decode :
    (w : Bytes) (h : FrameHeader)
    → ((i : ℕ) → get_or w i 0 < 256)
    → frame_header_decode w ≡ ok h
    → IsFrame h × (frame_header_encode h ≡ header_bytes w)
unfolding frame_header_decode
encode-decode w h b e =
    let (same, m, lo, hi, fits) = checked (parse_header w) h e in
    let b5 = b 5 in
    let b6 = b 6 in
    let b7 = b 7 in
    let b8 = b 8 in
    let numbered : (parse_header w).seq < u32_mod = omega arith in
    rw same (
      record { magic = m; lowest = lo; highest = hi; numbered = numbered; fits = fits },
      encode-parse w b,
    )

-- The decoder looks at the header only.
pub decode-append :
    (h : FrameHeader) (rest : Bytes)
    → IsFrame h
    → frame_header_decode (frame_header_encode h ++ rest) ≡ ok h
unfolding frame_header_decode frame_header_encode
decode-append h rest v =
    let m = v.magic in
    let f = v.fits in
    let a : h.magic < u32_mod = omega arith in
    let b : h.len < u32_mod = omega arith in
    rw (join h.magic a, join h.seq v.numbered, join h.len b) (check_frame h v)
