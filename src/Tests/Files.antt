-- ===== src/Tests/Files.antt =====
-- The theorems on received files (src/file_transfer.c) at concrete inputs.
use noxtor_cli.Prelude.{
  ℕ, ◌≡◌, ◌∙◌, ap, sym, inl, take, drop, take-append-drop, refl, true, false, [], ◌∷◌, ◌++◌, some,
  arith,
}
use noxtor_cli.Common.{Bytes, zeros}
use noxtor_cli.Peer.Types.{App}
use noxtor_cli.File.Storage.{Storage, opened, write_to_file}
use noxtor_cli.File.Writes.{Wrote, write_to_file-Wrote, file_bytes, reports}
use noxtor_cli.File.Receive.{file_transfer_handle_rx, rx_metadata, be64}
use noxtor_cli.File.Stages.{Announced, transfer, Receiving, Outcome}
use noxtor_cli.File.Incoming.{handle_rx-Outcome}
use noxtor_cli.File.Announce.{Started, metadata-Started}
use noxtor_cli.Peer.Actions.{no_tx}
use noxtor_cli.File.Sending.{Taken, gave, read_again, read_failed, took, file_transfer_handle_tx}
use noxtor_cli.File.Progress.{Origin, Between, Sent, Encrypts, file_stream, next_number}
use noxtor_cli.File.Handing.{handle_tx-Sent}
use noxtor_cli.Tests.Toy.{session, toy, env, online, empty, two, connected_app}

-- Every write takes one byte, and every digest is the same.
abbrev pub disk : Storage
disk = record {
  payload_alloc = true;
  dir = some (record { is_link = false; is_dir = true; owned = true; mode = 448 });
  available = some 10000;
  openat = λ name. opened 9;
  random = λ k. 0;
  write_file = λ k n. some 1;
  hash_init = true;
  hash_update = λ bytes. true;
  hash_final = λ bytes. some (1 ∷ zeros 31);
}

write_to_file-Wrote_example : Wrote 9 (1 ∷ 2 ∷ 3 ∷ []) (write_to_file disk 9 (1 ∷ 2 ∷ 3 ∷ []))
write_to_file-Wrote_example = write_to_file-Wrote disk 9 (1 ∷ 2 ∷ 3 ∷ [])

abbrev announced : Announced
announced = record {
  name = 97 ∷ [];
  size = 3;
  hash = 1 ∷ zeros 31;
  fd = 9;
  dir = 4;
  tail = 97 ∷ [];
}

abbrev receiving_app : App
receiving_app = record connected_app {
  peers = two (record online { rx_file = transfer announced [] 0 }) empty;
  downloads_dir_fd = some 4;
}

nothing_yet : Receiving [] announced 0 receiving_app []
unfolding file_bytes reports
nothing_yet = record {
  time = 0;
  rx = refl;
  dir_open = refl;
  new = [];
  recorded = refl;
  written = refl;
  silent = refl;
  incomplete = omega arith;
}

handle_rx-Outcome_example :
    (more : Bytes) × Outcome disk [] announced 0
      ([] ++ more)
      (file_transfer_handle_rx toy env disk 0 receiving_app (zeros 16 ++ 5 ∷ 6 ∷ 7 ∷ [])).0
handle_rx-Outcome_example =
    handle_rx-Outcome toy env disk [] announced 0 receiving_app [] (zeros 16 ++ 5 ∷ 6 ∷ 7 ∷ [])
      nothing_yet

-- "METADATA", the name "a", a size of 3 and a digest.
abbrev metadata : Bytes
metadata = 77 ∷ 69 ∷ 84 ∷ 65 ∷ 68 ∷ 65 ∷ 84 ∷ 65 ∷ 0 ∷ 97 ∷ zeros 255 ++ (be64 3 ++ (1 ∷ zeros 31))

metadata-Started_example : Started [] 0 (rx_metadata toy env disk 0 connected_app metadata).0
metadata-Started_example = metadata-Started toy env disk 0 connected_app metadata refl

-- A file of three bytes is being sent, and nothing of it was.
abbrev content : Bytes
content = 5 ∷ 6 ∷ 7 ∷ []

abbrev sending_app : App
sending_app = record connected_app {
  peers =
      two
        (record online {
          tx_file = record no_tx { active = true; fd = some 8; total_size = 3; plain_buf = true };
        })
        empty;
}

abbrev origin : Origin
origin = record { base = []; session = session; seq = 0; fd = 6; size = 3; content = content }

nothing_sent : Between toy origin 0 sending_app
unfolding Encrypts file_stream next_number file_bytes
nothing_sent = record {
  ms = [];
  cs = [];
  current = session;
  rest = content;
  new = [];
  on = refl;
  connected = refl;
  has = refl;
  encrypted = refl;
  numbered = refl;
  total = refl;
  counted = refl;
  left = omega arith;
  parted = refl;
  empty = refl;
  recorded = refl;
  written = refl;
}

bytes_of : Taken → Bytes
bytes_of (gave m) = m
bytes_of read_again = []
bytes_of read_failed = []

reads_content :
    (n : ℕ) (m : Bytes) → gave (take n content) ≡ gave m → (later : Bytes) × (m ++ later ≡ content)
unfolding bytes_of
reads_content n m e =
    (drop n content, ap (λ t. bytes_of t ++ drop n content) (sym e) ∙ take-append-drop n content)

handle_tx-Sent_example :
    Sent toy origin 0 sending_app
      (λ n. took 10)
      (λ n. gave (take n content))
      (file_transfer_handle_tx toy env 0 sending_app (λ n. took 10) (λ n. gave (take n content)))
handle_tx-Sent_example =
    handle_tx-Sent toy env origin 0 sending_app (λ n. took 10) (λ n. gave (take n content))
      (inl nothing_sent) reads_content
