-- ===== src/File/Receive.antt =====
-- file_transfer_handle_rx of src/file_transfer.c: a FILE frame starts a transfer or continues it.
use noxtor_cli.Prelude.{
  ℕ, ◌+◌, ◌-◌, ◌*◌, ◌/◌, Bool, true, false, not, ◌&&◌, ◌||◌, List, [], ◌∷◌, ◌++◌, Option, none,
  some, ltb, leb, ◌==◌, if◌then◌else◌, length, take, drop, get_or,
}
use noxtor_cli.Common.{
  Bytes, Err, Result, ok, err, bytes_eq, is_zero, mac_len, max_payload_len, c_string,
}
use noxtor_cli.Sodium.{Sodium}
use noxtor_cli.Noise.Cipher.{Session, noise_decrypt}
use noxtor_cli.Peer.Types.{
  PeerEvent, App, Env, Effect, FileRx, close, unlink, fsync, file_received, set_peer,
}
use noxtor_cli.Peer.Actions.{no_rx, close_fd, unlink_partial}
use noxtor_cli.Peer.Dispatch.{sm_dispatch}
use noxtor_cli.Wire.{be32}
use noxtor_cli.File.Name.{sanitize_filename}
use noxtor_cli.File.Storage.{Storage, write_to_file, open_recv_file}

-- NOX_MAX_FILE_SIZE, 100 GiB
abbrev pub max_file_size : ℕ
max_file_size = 107374182400

-- The eight bytes of a uint64_t, highest first.
abbrev pub be64 : ℕ → Bytes
be64 n = be32 (n / 4294967296) (be32 n [])

abbrev pub read64 : Bytes → ℕ → ℕ
read64 b i =
    get_or b i 0 * 72057594037927936
    + get_or b (i + 1) 0 * 281474976710656
    + get_or b (i + 2) 0 * 1099511627776
    + get_or b (i + 3) 0 * 4294967296
    + get_or b (i + 4) 0 * 16777216
    + get_or b (i + 5) 0 * 65536
    + get_or b (i + 6) 0 * 256
    + get_or b (i + 7) 0

abbrev pub emit : App → List Effect → App
emit a es = record a { effects = a.effects ++ es }

abbrev pub set_rx : App → ℕ → FileRx → App
set_rx a i f = set_peer a i (record (a.peers i) { rx_file = f })

abbrev pub done : Sodium → Env → ℕ → App → App × Bool
done S env i a = ((sm_dispatch S env i (set_rx a i no_rx) PeerEvent.file_done).0, true)

-- rx_abort, for the transfer `f` of the slot
unfoldable pub abort_with : Sodium → Env → ℕ → App → FileRx → App × Bool
abort_with S env i a f =
    done S env i (emit a (close_fd f.fd ++ unlink_partial a.downloads_dir_fd f.local_name))

abbrev pub rx_abort : Sodium → Env → ℕ → App → App × Bool
rx_abort S env i a = abort_with S env i a (a.peers i).rx_file

-- "METADATA" with its NUL, in a plaintext of 305 bytes.
unfoldable pub is_metadata : Bytes → Bool
is_metadata pt =
    length pt == 305 && bytes_eq (take 9 pt) (77 ∷ 69 ∷ 84 ∷ 65 ∷ 68 ∷ 65 ∷ 84 ∷ 65 ∷ 0 ∷ [])

-- The transfer of a file that was opened.
abbrev pub started : Env → ℕ → Bytes → Bytes → ℕ → Bytes → FileRx
started env size hash safe fd local = record {
  active = true;
  fd = some fd;
  filename = take 255 safe;
  expected_size = size;
  received_bytes = 0;
  expected_hash = hash;
  hashed = [];
  last_chunk = env.now;
  local_name = local;
}

-- The hash begins with the size.
abbrev pub hash_size : Sodium → Env → Storage → ℕ → ℕ → App → App × Bool
hash_size S env D i size a =
    if not D.hash_init
    then rx_abort S env i a
    else if not (D.hash_update (be64 size))
    then rx_abort S env i a
    else (set_rx a i (record (a.peers i).rx_file { hashed = be64 size }), true)

-- Where the file cannot be created, the descriptor of the zeroed structure is 0.
abbrev pub begin :
    Sodium → Env → Storage → ℕ → App → ℕ → Bytes → Bytes → Result (ℕ × Bytes) → App × Bool
begin S env D i a size hash safe (err e) = (set_rx a i (record no_rx { fd = some 0 }), true)
begin S env D i a size hash safe (ok (fd, local)) =
    hash_size S env D i size
      (sm_dispatch S env i (set_rx a i (started env size hash safe fd local))
        PeerEvent.file_rx_start).0

-- `avail` is the answer of fstatvfs.
abbrev pub with_space : Sodium → Env → Storage → ℕ → App → ℕ → Bytes → Bytes → Option ℕ → App × Bool
with_space S env D i a size hash safe none = (a, true)
with_space S env D i a size hash safe (some avail) =
    if ltb avail (size + size / 10)
    then (a, true)
    else if is_zero hash
    then (a, true)
    else begin S env D i a size hash safe (open_recv_file D a.downloads_dir_fd safe)

unfoldable pub rx_metadata : Sodium → Env → Storage → ℕ → App → Bytes → App × Bool
rx_metadata S env D i a pt =
    let safe = sanitize_filename (c_string 255 (drop 9 pt)) 256 (D.random 0) in
    let size = read64 pt 265 in
    if size == 0 || ltb max_file_size size
    then (a, true)
    else with_space S env D i a size (take 32 (drop 273 pt)) safe D.available

abbrev pub sync_close : Option ℕ → List Effect
sync_close none = []
sync_close (some fd) = fsync fd ∷ close fd ∷ []

abbrev pub sync_dir : Option ℕ → List Effect
sync_dir none = []
sync_dir (some dir) = fsync dir ∷ []

-- The last byte of the transfer `f` was written: the hash decides.
unfoldable pub check_hash : Sodium → Env → ℕ → App → FileRx → Option Bytes → App × Bool
check_hash S env i a f none = done S env i (emit a (unlink f.local_name ∷ close_fd f.fd))
check_hash S env i a f (some digest) = done S env i (
    emit a (
      sync_close f.fd
      ++ (if bytes_eq digest f.expected_hash
          then sync_dir a.downloads_dir_fd ++ file_received f.filename ∷ []
          else unlink f.local_name ∷ [])))

unfoldable pub after_chunk : Sodium → Env → Storage → ℕ → App → FileRx → App × Bool
after_chunk S env D i a f =
    if leb f.expected_size f.received_bytes
    then (if not (f.received_bytes == f.expected_size)
        then abort_with S env i a f
        else check_hash S env i a f (D.hash_final f.hashed))
    else (a, true)

abbrev pub with_bytes : Env → FileRx → Bytes → FileRx
with_bytes env f bytes = record f {
  hashed = f.hashed ++ bytes;
  received_bytes = f.received_bytes + length bytes;
  last_chunk = env.now;
}

-- `bytes` is what is to be written, and `es` what was.
unfoldable pub after_write :
    Sodium → Env → Storage → ℕ → App → FileRx → Bytes → List Effect × Result (Unit {0}) → App × Bool
after_write S env D i a f bytes (es, err e) = abort_with S env i (emit a es) f
after_write S env D i a f bytes (es, ok u) =
    if not (D.hash_update bytes)
    then abort_with S env i (emit a es) f
    else after_chunk S env D i (set_rx (emit a es) i (with_bytes env f bytes))
        (with_bytes env f bytes)

-- A write to the descriptor -1 fails.
abbrev pub write_open : Storage → Option ℕ → Bytes → List Effect × Result (Unit {0})
write_open D none bytes = ([], err Err.io)
write_open D (some fd) bytes = write_to_file D fd bytes

-- A chunk of the file of the transfer `f`.
unfoldable pub rx_chunk : Sodium → Env → Storage → ℕ → App → FileRx → Bytes → App × Bool
rx_chunk S env D i a f pt =
    if leb f.expected_size f.received_bytes
    then abort_with S env i a f
    else let bytes = take (f.expected_size - f.received_bytes) pt in
      after_write S env D i a f bytes (write_open D f.fd bytes)

abbrev pub rx_plain : Sodium → Env → Storage → ℕ → App → Bytes → App × Bool
rx_plain S env D i a pt =
    let f = (a.peers i).rx_file in
    if is_metadata pt
    then (if f.active then rx_abort S env i a else rx_metadata S env D i a pt)
    else if f.active
    then rx_chunk S env D i a f pt
    else (a, true)

-- A result of 0 bytes is treated like a failure.
abbrev pub rx_decrypted : Sodium → Env → Storage → ℕ → App → Option Bytes → App × Bool
rx_decrypted S env D i a none = if (a.peers i).rx_file.active then rx_abort S env i a else (a, true)
rx_decrypted S env D i a (some []) =
    if (a.peers i).rx_file.active then rx_abort S env i a else (a, true)
rx_decrypted S env D i a (some (b ∷ bs)) = rx_plain S env D i a (b ∷ bs)

abbrev pub decrypt_in : Sodium → ℕ → App → Option Session → Bytes → App × Option Bytes
decrypt_in S i a none payload = (a, none)
decrypt_in S i a (some s) payload =
    let (t, r) = noise_decrypt S s payload in
    (set_peer a i (record (a.peers i) { session = some t }), r)

unfoldable pub file_transfer_handle_rx : Sodium → Env → Storage → ℕ → App → Bytes → App × Bool
file_transfer_handle_rx S env D i a payload =
    if ltb (length payload) mac_len || ltb max_payload_len (length payload)
    then (a, false)
    else if not D.payload_alloc
    then (a, false)
    else let (b, r) = decrypt_in S i a (a.peers i).session payload in rx_decrypted S env D i b r
