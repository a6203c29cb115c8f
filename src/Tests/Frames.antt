-- ===== src/Tests/Frames.antt =====
-- The theorems on the frames of src/network.c and the messages of src/stdin_handler.c at concrete
-- inputs.
use noxtor_cli.Prelude.{ℕ, zero, suc, ◌+◌, ◌≤◌, ◌<◌, ◌≡◌, refl, [], ◌∷◌, some, arith, get_or}
use noxtor_cli.Common.{Bytes, ok, max_msg_len}
use noxtor_cli.Peer.Types.{PeerState, PeerEvent}
use noxtor_cli.Peer.TableLaws.{next}
use noxtor_cli.Wire.{
  FrameHeader, frame_header_encode, frame_header_decode, check_header, frame_magic,
}
use noxtor_cli.Wire.RoundTrip.{IsFrame, decode-encode, encode-decode, header_bytes}
use noxtor_cli.Send.Chunks.{next_chunk_size, next_chunk_size-IsCut, chunk_limit, IsCut}
use noxtor_cli.Send.Segmented.{send_segmented_message_to, send_queued_callback}
use noxtor_cli.Send.Answers.{InStep, Outcome}
use noxtor_cli.Send.InStep.{send_segmented-Outcome, send_queued-Outcome}
use noxtor_cli.Send.Delivery.{Delivered, send_segmented-delivers}
use noxtor_cli.Tests.Toy.{toy, toy_laws, session, online, connected_app, env, kernel, stingy}

abbrev text_header : FrameHeader
text_header = record { magic = frame_magic; kind = 1; seq = 7; len = 20 }

decode-encode_example : frame_header_decode (frame_header_encode text_header) ≡ ok text_header
decode-encode_example = decode-encode text_header (record {
  magic = refl;
  lowest = omega arith;
  highest = omega arith;
  numbered = omega arith;
  fits = omega arith;
})

abbrev wire : Bytes
wire = 0xDE ∷ 0xAD ∷ 0xC0 ∷ 0xDE ∷ 1 ∷ 0 ∷ 0 ∷ 0 ∷ 7 ∷ 0 ∷ 0 ∷ 0 ∷ 20 ∷ []

abbrev AllBytes : Bytes → Type 0
AllBytes [] = Unit {0}
AllBytes (b ∷ bs) = (b < 256) × AllBytes bs

in_range : (w : Bytes) → AllBytes w → (i : ℕ) → get_or w i 0 < 256
in_range [] h i = omega arith
in_range (b ∷ bs) (h, hs) zero = h
in_range (b ∷ bs) (h, hs) (suc i) = in_range bs hs i

wire_bytes : AllBytes wire
wire_bytes = ground arith

decoded : frame_header_decode wire ≡ ok text_header
unfolding frame_header_decode check_header
decoded = refl

encode-decode_example : IsFrame text_header × (frame_header_encode text_header ≡ header_bytes wire)
encode-decode_example = encode-decode wire text_header (in_range wire wire_bytes) decoded

abbrev hello : Bytes
hello = 104 ∷ 195 ∷ 169 ∷ []

next_chunk_size-IsCut_example :
    (1 ≤ next_chunk_size hello 1 3)
    × (next_chunk_size hello 1 3 ≤ chunk_limit)
    × (1 + next_chunk_size hello 1 3 ≤ 3)
    × IsCut hello 1 3 (next_chunk_size hello 1 3)
next_chunk_size-IsCut_example = next_chunk_size-IsCut hello 1 3 (omega arith) (omega arith)

running : next PeerState.active PeerEvent.peer_disconnected ≡ some PeerState.idle
unfolding next
running = refl

in_step : InStep online
in_step = record {
  current = session;
  has_session = refl;
  keyed = refl;
  bounded = omega arith;
  paired = omega arith;
  running = running;
}

send_segmented-Outcome_example :
    Outcome toy stingy ⊥ 0 connected_app in_step.current hello
      (send_segmented_message_to toy env stingy 0 connected_app hello)
send_segmented-Outcome_example =
    send_segmented-Outcome toy toy_laws env stingy 0 connected_app hello in_step (omega arith)

send_queued-Outcome_example :
    Outcome toy stingy
      (max_msg_len < 4)
      0
      connected_app
      in_step.current
      hello
      (send_queued_callback toy env stingy 0 connected_app hello)
send_queued-Outcome_example =
    send_queued-Outcome toy toy_laws env stingy 0 connected_app hello in_step

send_segmented-delivers_example :
    Delivered toy 0 6 hello connected_app session
      (send_segmented_message_to toy env kernel 0 connected_app hello)
send_segmented-delivers_example =
    send_segmented-delivers toy toy_laws env kernel 0 6 connected_app session hello (λ k n. refl)
      refl refl refl refl (omega arith)
