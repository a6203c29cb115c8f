-- ===== src/Tests/Texts.antt =====
-- The theorems on the bytes that come from a peer, at concrete inputs: frames (src/event_loop.c),
-- file names (src/file_transfer.c) and text for the terminal (src/frontend.c).
use noxtor_cli.Prelude.{ℕ, ◌++◌, ◌<◌, ◌≤◌, ◌≡◌, refl, true, [], ◌∷◌, length, arith, take, drop}
use noxtor_cli.Common.{Bytes}
use noxtor_cli.Wire.{FrameHeader, frame_magic}
use noxtor_cli.Receive.Framing.{split_frames}
use noxtor_cli.Receive.Stream.{IsSent, AllSent, stream, frame_bytes}
use noxtor_cli.Receive.Pieces.{receive, receive-pieces}
use noxtor_cli.Receive.Room.{split_frames_room}
use noxtor_cli.Wire.{frame_header_encode}
use noxtor_cli.File.Name.{sanitize_filename}
use noxtor_cli.File.SafeName.{IsSafe, sanitize-IsSafe}
use noxtor_cli.File.Kept.{sanitize_filename_id}
use noxtor_cli.Screen.Strip.{ui_strip_ansi}
use noxtor_cli.Screen.Clean.{AllPrintable, ui_strip_ansi-AllPrintable, ui_strip_ansi_id}

abbrev numbered : ℕ → FrameHeader
numbered n = record { magic = frame_magic; kind = 1; seq = n; len = 2 }

abbrev two_bytes : Bytes
two_bytes = 104 ∷ 105 ∷ []

numbered-IsSent : (n : ℕ) → n ≤ 9 → IsSent (numbered n) two_bytes
numbered-IsSent n h = record {
  header = record {
    magic = refl;
    lowest = omega arith;
    highest = omega arith;
    numbered = omega arith;
    fits = omega arith;
  };
  full = refl;
  not_empty = omega arith;
}

first_sent : AllSent ((numbered 4, two_bytes) ∷ [])
unfolding AllSent
first_sent = (numbered-IsSent 4 (omega arith), tt)

-- The frame comes in two pieces.
joined :
    (take 5 (frame_bytes (numbered 4) two_bytes)
      ++ (drop 5 (frame_bytes (numbered 4) two_bytes) ++ []))
    ≡ stream ((numbered 4, two_bytes) ∷ []) []
unfolding frame_bytes stream frame_header_encode
joined = refl

receive-pieces_example :
    receive 2 [] (
      take 5 (frame_bytes (numbered 4) two_bytes)
      ∷ drop 5 (frame_bytes (numbered 4) two_bytes)
      ∷ [])
    ≡ ((numbered 4, two_bytes) ∷ [], [])
receive-pieces_example =
    receive-pieces ((numbered 4, two_bytes) ∷ [])
      (take 5 (frame_bytes (numbered 4) two_bytes)
        ∷ drop 5 (frame_bytes (numbered 4) two_bytes)
        ∷ [])
      2 first_sent joined (omega arith)

split_frames_room_example : length (split_frames true true 3 two_bytes).1 < 4125
split_frames_room_example = split_frames_room true 3 two_bytes (omega arith)

-- "../..x"
abbrev path : Bytes
path = 46 ∷ 46 ∷ 47 ∷ 46 ∷ 46 ∷ 120 ∷ []

sanitize-IsSafe_example : IsSafe 256 (sanitize_filename path 256 7)
sanitize-IsSafe_example = sanitize-IsSafe path 256 7 (omega arith)

sanitize_filename_id_example :
    sanitize_filename (sanitize_filename path 256 7) 256 8 ≡ sanitize_filename path 256 7
sanitize_filename_id_example =
    sanitize_filename_id 256 8 (sanitize_filename path 256 7)
      (sanitize-IsSafe path 256 7 (omega arith))

-- ESC [ 3 1 m and "hi"
abbrev red : Bytes
red = 27 ∷ 91 ∷ 51 ∷ 49 ∷ 109 ∷ 104 ∷ 105 ∷ []

ui_strip_ansi-AllPrintable_example :
    AllPrintable (ui_strip_ansi red)
    × (length (ui_strip_ansi red) ≤ 7)
    × (ui_strip_ansi (ui_strip_ansi red) ≡ ui_strip_ansi red)
ui_strip_ansi-AllPrintable_example = ui_strip_ansi-AllPrintable red

plain_text : AllPrintable two_bytes
unfolding AllPrintable
plain_text = (refl, refl, (refl, refl, tt))

ui_strip_ansi_id_example : ui_strip_ansi two_bytes ≡ two_bytes
ui_strip_ansi_id_example = ui_strip_ansi_id two_bytes plain_text
