-- ===== src/File/Sending.antt =====
-- file_transfer_handle_tx of src/file_transfer.c: the next part of a file goes to the connection. The
-- interest in EPOLLOUT is left out.
use noxtor_cli.Prelude.{
  ℕ, zero, suc, ◌+◌, ◌-◌, ◌%◌, min, not, [], ◌∷◌, ◌++◌, Option, none, some, ltb, leb, ◌==◌, length,
  take, drop, if◌then◌else◌,
}
use noxtor_cli.Common.{Bytes, u32_mod, mac_len}
use noxtor_cli.Sodium.{Sodium}
use noxtor_cli.Noise.Cipher.{Session, noise_encrypt}
use noxtor_cli.Wire.{frame_header_encode, frame_magic, frame_header_size, msg_file}
use noxtor_cli.Peer.Types.{App, Env, FileTx, write, set_peer}
use noxtor_cli.Peer.Actions.{no_tx, close_fd}
use noxtor_cli.File.Receive.{emit}

-- What write answers: a number of bytes, EAGAIN or EINTR, or another error.
pub data Written : Type 0 where
  took : ℕ → Written
  write_again write_failed : Written

-- What read answers: bytes, EINTR, or another error.
pub data Taken : Type 0 where
  gave : Bytes → Taken
  read_again read_failed : Taken

-- TX_BUF_CAPACITY
abbrev pub tx_buf_capacity : ℕ
tx_buf_capacity = 4125

abbrev pub set_tx : App → ℕ → FileTx → App
set_tx a i f = set_peer a i (record (a.peers i) { tx_file = f })

-- The transfer ends, whether it is complete or not.
abbrev pub end_tx : ℕ → App → App
end_tx i a = set_tx (emit a (close_fd (a.peers i).tx_file.fd)) i no_tx

unfoldable pub file_frame : ℕ → Bytes → Bytes
file_frame seq ct =
    frame_header_encode
      (record { magic = frame_magic; kind = msg_file; seq = seq; len = length ct })
    ++ ct

-- The frame of a chunk is written.
unfoldable pub chunk_sent : Env → ℕ → App → App
chunk_sent env i a =
    let f = (a.peers i).tx_file in
    let sent = f.sent_bytes + f.current_chunk_size in
    let b = set_peer a i (record (a.peers i) {
      tx_seq = ((a.peers i).tx_seq + 1) % u32_mod;
      tx_file = record f { tx_buf = []; tx_offset = 0; sent_bytes = sent; current_chunk_size = 0 };
    }) in
    if leb f.total_size sent then end_tx i b else b

unfoldable pub wrote_part : Env → ℕ → ℕ → App → ℕ → App
wrote_part env i fd a n =
    let f = (a.peers i).tx_file in
    let b =
      set_peer (emit a (write fd (take n (drop f.tx_offset f.tx_buf)) ∷ [])) i (record (a.peers i) {
        tx_file = record f { tx_offset = f.tx_offset + n };
        last_active = env.now;
      }) in
    if f.tx_offset + n == length f.tx_buf then chunk_sent env i b else b

-- write takes as many bytes as it is given at most.
abbrev pub on_written : Env → ℕ → ℕ → App → Written → App
on_written env i fd a (took zero) = end_tx i a
on_written env i fd a (took (suc n)) =
    wrote_part env i fd a
      (min (suc n) (length (a.peers i).tx_file.tx_buf - (a.peers i).tx_file.tx_offset))
on_written env i fd a write_again = a
on_written env i fd a write_failed = end_tx i a

abbrev pub on_encrypted : ℕ → App → Bytes → Session × Option Bytes → App
on_encrypted i a bytes (s, none) = end_tx i (set_peer a i (record (a.peers i) { session = some s }))
on_encrypted i a bytes (s, some []) =
    end_tx i (set_peer a i (record (a.peers i) { session = some s }))
on_encrypted i a bytes (s, some (c ∷ cs)) = set_peer a i (record (a.peers i) {
  session = some s;
  tx_file = record (a.peers i).tx_file {
    tx_buf = file_frame (a.peers i).tx_seq (c ∷ cs);
    tx_offset = 0;
    current_chunk_size = length bytes;
  };
})

abbrev pub encrypt_chunk : Sodium → ℕ → App → Bytes → Option Session → App
encrypt_chunk S i a bytes none = end_tx i a
encrypt_chunk S i a bytes (some s) = on_encrypted i a bytes (noise_encrypt S s bytes)

abbrev pub on_chunk : Sodium → ℕ → App → Bytes → App
on_chunk S i a [] = end_tx i a
on_chunk S i a (b ∷ bs) =
    if ltb tx_buf_capacity (frame_header_size + (length (b ∷ bs) + mac_len))
    then end_tx i a
    else encrypt_chunk S i a (b ∷ bs) (a.peers i).session

-- read gives `to_read` bytes at most.
abbrev pub on_taken : Sodium → ℕ → App → ℕ → Taken → App
on_taken S i a to_read (gave bytes) = on_chunk S i a (take to_read bytes)
on_taken S i a to_read read_again = a
on_taken S i a to_read read_failed = end_tx i a

unfoldable pub next_chunk : Sodium → ℕ → App → (ℕ → Taken) → App
next_chunk S i a get =
    let f = (a.peers i).tx_file in
    let remaining = f.total_size - f.sent_bytes in
    if remaining == 0
    then end_tx i a
    else on_taken S i a (min remaining 4096) (get (min remaining 4096))

abbrev pub handle_on : Sodium → Env → ℕ → App → (ℕ → Written) → (ℕ → Taken) → Option ℕ → App
handle_on S env i a put get none = a
handle_on S env i a put get (some fd) =
    let f = (a.peers i).tx_file in
    if not f.active
    then a
    else if ltb 0 (length f.tx_buf)
    then on_written env i fd a (put (length f.tx_buf - f.tx_offset))
    else next_chunk S i a get

unfoldable pub file_transfer_handle_tx : Sodium → Env → ℕ → App → (ℕ → Written) → (ℕ → Taken) → App
file_transfer_handle_tx S env i a put get = handle_on S env i a put get (a.peers i).fd
