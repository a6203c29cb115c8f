-- ===== src/File/Buffer.antt =====
-- A FILE frame does not lengthen the receive buffer (file_transfer_handle_rx of src/file_transfer.c).
use noxtor_cli.Prelude.{
  ℕ, ◌+◌, ◌-◌, ◌/◌, arith, true, ◌||◌, List, [], ◌∷◌, ◌++◌, Option, none, some, ltb, leb, ◌==◌,
  length, take, drop, if◌then◌else◌, Bool-cases, inl, inr,
}
use noxtor_cli.Common.{
  Bytes, Result, ok, err, bytes_eq, is_zero, c_string, mac_len, max_payload_len,
}
use noxtor_cli.Sodium.{Sodium}
use noxtor_cli.Noise.Cipher.{Session, noise_decrypt}
use noxtor_cli.Peer.Types.{PeerEvent, App, Env, Effect, FileRx, unlink, file_received}
use noxtor_cli.Peer.Actions.{no_rx, close_fd, unlink_partial}
use noxtor_cli.Peer.Dispatch.{sm_dispatch}
use noxtor_cli.Peer.Buffer.{Shrinks, same-Shrinks, then-Shrinks, slot-Shrinks, dispatch-Shrinks}
use noxtor_cli.File.Name.{sanitize_filename}
use noxtor_cli.File.Storage.{Storage, open_recv_file}
use noxtor_cli.File.Receive.{
  emit, be64, read64, set_rx, done, abort_with, rx_abort, is_metadata, started, hash_size, begin,
  with_space, rx_metadata, max_file_size, sync_close, sync_dir, check_hash, after_chunk, with_bytes,
  after_write, write_open, rx_chunk, rx_plain, rx_decrypted, decrypt_in, file_transfer_handle_rx,
}

module _ (S : Sodium) (env : Env) (i : ℕ) where
  rx-Shrinks : (a : App) (f : FileRx) → Shrinks i a (set_rx a i f)
  rx-Shrinks a f = slot-Shrinks i a (record (a.peers i) { rx_file = f }) (omega arith)

  done-Shrinks : (a : App) → Shrinks i a (done S env i a).0
  done-Shrinks a =
      then-Shrinks i a (set_rx a i no_rx) (done S env i a).0 (rx-Shrinks a no_rx)
        (dispatch-Shrinks S env i (set_rx a i no_rx) PeerEvent.file_done)

  abort-Shrinks : (a : App) (f : FileRx) → Shrinks i a (abort_with S env i a f).0
  unfolding abort_with
  abort-Shrinks a f =
      done-Shrinks (emit a (close_fd f.fd ++ unlink_partial a.downloads_dir_fd f.local_name))

  hash-Shrinks :
      (a : App) (f : FileRx) (o : Option Bytes) → Shrinks i a (check_hash S env i a f o).0
  unfolding check_hash
  hash-Shrinks a f none = done-Shrinks (emit a (unlink f.local_name ∷ close_fd f.fd))
  hash-Shrinks a f (some digest) = done-Shrinks (
      emit a (
        sync_close f.fd
        ++ (if bytes_eq digest f.expected_hash
            then sync_dir a.downloads_dir_fd ++ file_received f.filename ∷ []
            else unlink f.local_name ∷ [])))

  after_chunk-Shrinks :
      (D : Storage) (a : App) (f : FileRx) → Shrinks i a (after_chunk S env D i a f).0
  unfolding after_chunk
  after_chunk-Shrinks D a f = elim (Bool-cases (leb f.expected_size f.received_bytes)) [
    | inr part ↦ rw part (same-Shrinks i a)
    | inl all ↦ elim (Bool-cases (f.received_bytes == f.expected_size)) [
      | inl exact ↦ simp (all, exact) (hash-Shrinks a f (D.hash_final f.hashed))
      | inr more ↦ simp (all, more) (abort-Shrinks a f)
    ]
  ]

  after_write-Shrinks :
      (D : Storage) (a : App) (f : FileRx) (bytes : Bytes) (r : List Effect × Result (Unit {0}))
      → Shrinks i a (after_write S env D i a f bytes r).0
  unfolding after_write
  after_write-Shrinks D a f bytes (es, err e) = abort-Shrinks (emit a es) f
  after_write-Shrinks D a f bytes (es, ok u) = elim (Bool-cases (D.hash_update bytes)) [
    | inr lost ↦ simp lost (abort-Shrinks (emit a es) f)
    | inl updated ↦
        let g = with_bytes env f bytes in
        let b = set_rx (emit a es) i g in
        simp updated (
          then-Shrinks i a b (after_chunk S env D i b g).0 (rx-Shrinks (emit a es) g)
            (after_chunk-Shrinks D b g))
  ]

  chunk-Shrinks :
      (D : Storage) (a : App) (f : FileRx) (pt : Bytes) → Shrinks i a (rx_chunk S env D i a f pt).0
  unfolding rx_chunk
  chunk-Shrinks D a f pt = elim (Bool-cases (leb f.expected_size f.received_bytes)) [
    | inl over ↦ rw over (abort-Shrinks a f)
    | inr part ↦
        let bytes = take (f.expected_size - f.received_bytes) pt in
        rw part (after_write-Shrinks D a f bytes (write_open D f.fd bytes))
  ]

  size-Shrinks : (D : Storage) (size : ℕ) (a : App) → Shrinks i a (hash_size S env D i size a).0
  size-Shrinks D size a = elim (Bool-cases D.hash_init) [
    | inr lost ↦ simp lost (abort-Shrinks a (a.peers i).rx_file)
    | inl init ↦ elim (Bool-cases (D.hash_update (be64 size))) [
      | inr lost ↦ simp (init, lost) (abort-Shrinks a (a.peers i).rx_file)
      | inl updated ↦
          simp (init, updated) (rx-Shrinks a (record (a.peers i).rx_file { hashed = be64 size }))
    ]
  ]

  begin-Shrinks :
      (D : Storage) (a : App) (size : ℕ) (hash safe : Bytes) (r : Result (ℕ × Bytes))
      → Shrinks i a (begin S env D i a size hash safe r).0
  begin-Shrinks D a size hash safe (err e) = rx-Shrinks a (record no_rx { fd = some 0 })
  begin-Shrinks D a size hash safe (ok (fd, name)) =
      let f = started env size hash safe fd name in
      let b = set_rx a i f in
      let c = (sm_dispatch S env i b PeerEvent.file_rx_start).0 in
      then-Shrinks i a c (hash_size S env D i size c).0
        (then-Shrinks i a b c (rx-Shrinks a f) (dispatch-Shrinks S env i b PeerEvent.file_rx_start))
        (size-Shrinks D size c)

  space-Shrinks :
      (D : Storage) (a : App) (size : ℕ) (hash safe : Bytes) (o : Option ℕ)
      → Shrinks i a (with_space S env D i a size hash safe o).0
  space-Shrinks D a size hash safe none = same-Shrinks i a
  space-Shrinks D a size hash safe (some avail) = elim (Bool-cases (ltb avail (size + size / 10))) [
    | inl full ↦ rw full (same-Shrinks i a)
    | inr room ↦ elim (Bool-cases (is_zero hash)) [
      | inl zero_hash ↦ rw (room, zero_hash) (same-Shrinks i a)
      | inr given ↦
          simp (room, given)
            (begin-Shrinks D a size hash safe (open_recv_file D a.downloads_dir_fd safe))
    ]
  ]

  metadata-Shrinks :
      (D : Storage) (a : App) (pt : Bytes) → Shrinks i a (rx_metadata S env D i a pt).0
  unfolding rx_metadata
  metadata-Shrinks D a pt =
      let size = read64 pt 265 in
      elim (Bool-cases (size == 0 || ltb max_file_size size)) [
        | inl bad ↦ rw bad (same-Shrinks i a)
        | inr fits ↦ rw fits (
            space-Shrinks D a size (take 32 (drop 273 pt))
              (sanitize_filename (c_string 255 (drop 9 pt)) 256 (D.random 0)) D.available)
      ]

  plain-Shrinks : (D : Storage) (a : App) (pt : Bytes) → Shrinks i a (rx_plain S env D i a pt).0
  plain-Shrinks D a pt = elim (Bool-cases (is_metadata pt)) [
    | inl meta ↦ elim (Bool-cases (a.peers i).rx_file.active) [
      | inl on ↦ simp (meta, on) (abort-Shrinks a (a.peers i).rx_file)
      | inr off ↦ simp (meta, off) (metadata-Shrinks D a pt)
    ]
    | inr chunk ↦ elim (Bool-cases (a.peers i).rx_file.active) [
      | inl on ↦ simp (chunk, on) (chunk-Shrinks D a (a.peers i).rx_file pt)
      | inr off ↦ simp (chunk, off) (same-Shrinks i a)
    ]
  ]

  failed-Shrinks :
      (a : App)
      → Shrinks i a (if (a.peers i).rx_file.active then rx_abort S env i a else (a, true)).0
  failed-Shrinks a = elim (Bool-cases (a.peers i).rx_file.active) [
    | inl on ↦ simp on (abort-Shrinks a (a.peers i).rx_file)
    | inr off ↦ simp off (same-Shrinks i a)
  ]

  decrypted-Shrinks :
      (D : Storage) (a : App) (r : Option Bytes) → Shrinks i a (rx_decrypted S env D i a r).0
  decrypted-Shrinks D a none = failed-Shrinks a
  decrypted-Shrinks D a (some []) = failed-Shrinks a
  decrypted-Shrinks D a (some (b ∷ bs)) = plain-Shrinks D a (b ∷ bs)

  session-Shrinks :
      (D : Storage) (a : App) (payload : Bytes) (o : Option Session)
      → Shrinks i a
          (rx_decrypted S env D i (decrypt_in S i a o payload).0 (decrypt_in S i a o payload).1).0
  session-Shrinks D a payload none = decrypted-Shrinks D a none
  session-Shrinks D a payload (some s) =
      let b = (decrypt_in S i a (some s) payload).0 in
      let r = (decrypt_in S i a (some s) payload).1 in
      then-Shrinks i a b (rx_decrypted S env D i b r).0
        (slot-Shrinks i a (record (a.peers i) { session = some (noise_decrypt S s payload).0 })
          (omega arith))
        (decrypted-Shrinks D b r)

  -- Whatever the payload is.
  pub handle_rx-Shrinks :
      (D : Storage) (a : App) (payload : Bytes)
      → Shrinks i a (file_transfer_handle_rx S env D i a payload).0
  unfolding file_transfer_handle_rx
  handle_rx-Shrinks D a payload =
      elim (Bool-cases (ltb (length payload) mac_len || ltb max_payload_len (length payload))) [
        | inl bad ↦ rw bad (same-Shrinks i a)
        | inr fits ↦ elim (Bool-cases D.payload_alloc) [
          | inl got ↦ simp (fits, got) (session-Shrinks D a payload (a.peers i).session)
          | inr lacking ↦ simp (fits, lacking) (same-Shrinks i a)
        ]
      ]
