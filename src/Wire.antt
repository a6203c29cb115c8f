-- ===== src/Wire.antt =====
-- src/network.c, frame_header_encode and frame_header_decode, with struct frame_header and enum
-- msg_type of include/types.h. A shifted byte has no bit in common with the others, so `|` is a sum.
pub mod RoundTrip
use noxtor_cli.Prelude.{
  ℕ, ◌+◌, ◌*◌, ◌/◌, ◌%◌, Bool, not, ◌||◌, List, [], ◌∷◌, ltb, ◌==◌, if◌then◌else◌, get_or,
}
use noxtor_cli.Common.{Bytes, Err, Result, ok, err}

abbrev pub msg_text : ℕ
msg_text = 1

abbrev pub msg_file : ℕ
msg_file = 2

abbrev pub msg_ack : ℕ
msg_ack = 3

abbrev pub msg_ctrl : ℕ
msg_ctrl = 4

abbrev pub frame_magic : ℕ
frame_magic = 0xDEADC0DE

abbrev pub frame_header_size : ℕ
frame_header_size = 13

abbrev pub frame_max_payload : ℕ
frame_max_payload = 4112

pub record FrameHeader : Type 0 where
  pub magic : ℕ
  pub kind : ℕ
  pub seq : ℕ
  pub len : ℕ

-- The four bytes of a uint32_t, highest first.
abbrev pub be32 : ℕ → Bytes → Bytes
be32 n rest = n / 16777216 % 256 ∷ n / 65536 % 256 ∷ n / 256 % 256 ∷ n % 256 ∷ rest

unfoldable pub frame_header_encode : FrameHeader → Bytes
frame_header_encode h = be32 h.magic (h.kind ∷ be32 h.seq (be32 h.len []))

abbrev pub read32 : Bytes → ℕ → ℕ
read32 wire i =
    get_or wire i 0 * 16777216
    + get_or wire (i + 1) 0 * 65536
    + get_or wire (i + 2) 0 * 256
    + get_or wire (i + 3) 0

-- The header as it stands on the wire, before it is checked.
abbrev pub parse_header : Bytes → FrameHeader
parse_header wire = record {
  magic = read32 wire 0;
  kind = get_or wire 4 0;
  seq = read32 wire 5;
  len = read32 wire 9;
}

-- The checks of frame_header_decode on the fields it has read.
unfoldable pub check_header : FrameHeader → Result FrameHeader
check_header h =
    if not (h.magic == frame_magic)
    then err Err.proto
    else if ltb h.kind msg_text || ltb msg_ctrl h.kind
    then err Err.proto
    else if ltb frame_max_payload h.len
    then err Err.proto
    else ok h

unfoldable pub frame_header_decode : Bytes → Result FrameHeader
frame_header_decode wire = check_header (parse_header wire)
