-- ===== src/File/Announce.antt =====
-- The METADATA frame of src/file_transfer.c: what it may start.
use noxtor_cli.Prelude.{
  ℕ, ◌+◌, ◌/◌, ◌≤◌, ◌≡◌, refl, ap, sym, subst, ◌∙◌, ◌⊎◌, arith, false, ◌||◌, List, [], ◌∷◌, ◌++◌,
  Option, none, some, ltb, leb, ◌==◌, length, take, drop, append_nil, Bool-cases, inl, inr,
}
use noxtor_cli.Common.{Bytes, Result, ok, err, c_string, is_zero}
use noxtor_cli.Sodium.{Sodium}
use noxtor_cli.Peer.Types.{PeerEvent, App, Env, Effect, FileRx}
use noxtor_cli.Peer.Actions.{no_rx, close_fd, unlink_partial}
use noxtor_cli.Peer.Dispatch.{sm_dispatch}
use noxtor_cli.Peer.Slot.{slot_same}
use noxtor_cli.Peer.Quiet.{file_rx_start-Quiet}
use noxtor_cli.File.Name.{sanitize_filename, slash}
use noxtor_cli.File.SafeName.{IsSafe, sanitize-IsSafe}
use noxtor_cli.File.Kept.{take_id}
use noxtor_cli.File.Storage.{
  Storage, Opened, opened, exists, failed, open_recv_file, has_char, in_dir, in_verified, first_try,
  second_try, verify_downloads_dir_fd, received_name, local_name_size, random_suffix,
}
use noxtor_cli.File.Writes.{file_bytes, reports}
use noxtor_cli.File.Receive.{
  emit, be64, read64, set_rx, rx_abort, abort_with, started, begin, with_space, rx_metadata,
  max_file_size,
}
use noxtor_cli.File.Stages.{Announced, transfer, Receiving}
use noxtor_cli.File.Transfer.{done_rx}

-- Where a received file is created: the directory is open, and the name begins with "received_".
abbrev CreatedIn : Option ℕ → Bytes → Type 0
CreatedIn o name = (dir : ℕ) × (tail : Bytes) × (o ≡ some dir) × (name ≡ 114 ∷ tail)

abbrev Created : Option ℕ → Result (ℕ × Bytes) → Type 0
Created o (ok (fd, name)) = CreatedIn o name
Created o (err e) = Unit {0}

second-Created :
    (dir : Option ℕ) (o : Opened) (name : Bytes)
    → CreatedIn dir name
    → Created dir (second_try o name)
second-Created dir (opened fd) name c = c
second-Created dir exists name c = tt
second-Created dir failed name c = tt

first-Created :
    (D : Storage) (d : ℕ) (o : Opened) (safe : Bytes)
    → Created (some d) (first_try D o safe (received_name safe))
first-Created D d (opened fd) safe = (d, _, refl, refl)
first-Created D d exists safe = elim (Bool-cases (leb local_name_size (length other))) [
  | inl long ↦ rw long tt
  | inr short ↦ rw short (second-Created (some d) (D.openat other) other (d, _, refl, refl))
]
  where
    other : Bytes
    other = received_name safe ++ random_suffix (D.random 1)
first-Created D d failed safe = tt

verified-Created :
    (D : Storage) (d : ℕ) (safe : Bytes) (r : Result (Unit {0}))
    → Created (some d) (in_verified D safe r)
verified-Created D d safe (err e) = tt
verified-Created D d safe (ok u) =
    elim (Bool-cases (leb local_name_size (length (received_name safe)))) [
      | inl long ↦ rw long tt
      | inr short ↦ rw short (first-Created D d (D.openat (received_name safe)) safe)
    ]

dir-Created : (D : Storage) (o : Option ℕ) (safe : Bytes) → Created o (in_dir D safe o)
dir-Created D none safe = tt
dir-Created D (some d) safe = verified-Created D d safe (verify_downloads_dir_fd D.dir)

open-Created : (D : Storage) (o : Option ℕ) (safe : Bytes) → Created o (open_recv_file D o safe)
unfolding open_recv_file
open-Created D o safe = elim (Bool-cases (has_char slash safe || has_char 92 safe)) [
  | inl bad ↦ rw bad tt
  | inr good ↦ rw good (dir-Created D o safe)
]

abbrev with_hash : ℕ → FileRx → FileRx
with_hash size g = record g { hashed = be64 size }

abbrev with_local : FileRx → Bytes → FileRx
with_local g l = record g { local_name = l }

-- No transfer is active, or one begins: its name is safe, its size is within the limit, and nothing
-- of it was written yet.
pub Started : List Effect → ℕ → App → Type 0
Started base i b =
    ((b.peers i).rx_file.active ≡ false)
    ⊎ ((n : Announced) × IsSafe 256 n.name
        × (1 ≤ n.size)
        × (n.size ≤ max_file_size)
        × Receiving base n i b [])

module _ (S : Sodium) (env : Env) (D : Storage) (i : ℕ) where
  aborted : (a : App) → ((rx_abort S env i a).0.peers i).rx_file.active ≡ false
  unfolding abort_with
  aborted a =
      let f = (a.peers i).rx_file in
      ap (λ g. g.active)
        (done_rx S env i (emit a (close_fd f.fd ++ unlink_partial a.downloads_dir_fd f.local_name)))

  begin-Started :
      (a : App) (size : ℕ) (hash safe : Bytes) (r : Result (ℕ × Bytes))
      → (a.peers i).rx_file.active ≡ false
      → IsSafe 256 safe
      → 1 ≤ size
      → size ≤ max_file_size
      → Created a.downloads_dir_fd r
      → Started a.effects i (begin S env D i a size hash safe r).0
  unfolding Started file_bytes reports
  begin-Started a size hash safe (err e) off s lo hi c = inl (
      ap (λ p. p.rx_file.active)
        (slot_same a i (record (a.peers i) { rx_file = record no_rx { fd = some 0 } })))
  begin-Started a size hash safe (ok (fd, name)) off s lo hi (dir, tail, d, e) =
      let f = started env size hash safe fd name in
      let b = (sm_dispatch S env i (set_rx a i f) PeerEvent.file_rx_start).0 in
      let q = file_rx_start-Quiet S env i (set_rx a i f) in
      let n : Announced = record {
        name = take 255 safe;
        size = size;
        hash = hash;
        fd = fd;
        dir = dir;
        tail = tail;
      } in
      let here : (b.peers i).rx_file ≡ f =
        ap (λ p. p.rx_file) q.slot
        ∙ ap (λ p. p.rx_file) (slot_same a i (record (a.peers i) { rx_file = f })) in
      elim (Bool-cases D.hash_init) [
        | inr lost ↦ simp lost (inl (aborted b))
        | inl init ↦ elim (Bool-cases (D.hash_update (be64 size))) [
          | inr lost ↦ simp (init, lost) (inl (aborted b))
          | inl updated ↦
              simp (init, updated)
                (inr (
                  n,
                  subst (IsSafe 256) (sym (take_id 255 safe (let l = s.fits in omega arith))) s,
                  lo,
                  hi,
                  record {
                    time = env.now;
                    rx =
                        ap (λ p. p.rx_file)
                          (slot_same b i (record (b.peers i) {
                            rx_file = record (b.peers i).rx_file { hashed = be64 size };
                          }))
                        ∙ (ap (λ (g : FileRx). with_hash size g) here
                            ∙ ap (λ l. with_local (transfer n [] env.now) l) e);
                    dir_open = q.dir ∙ d;
                    new = [];
                    recorded = q.effects ∙ sym (append_nil a.effects);
                    written = refl;
                    silent = refl;
                    incomplete = lo;
                  },
                ))
        ]
      ]

  space-Started :
      (a : App) (size : ℕ) (hash safe : Bytes) (o : Option ℕ)
      → (a.peers i).rx_file.active ≡ false
      → IsSafe 256 safe
      → 1 ≤ size
      → size ≤ max_file_size
      → Started a.effects i (with_space S env D i a size hash safe o).0
  unfolding Started
  space-Started a size hash safe none off s lo hi = inl off
  space-Started a size hash safe (some avail) off s lo hi =
      elim (Bool-cases (ltb avail (size + size / 10))) [
        | inl full ↦ rw full (inl off)
        | inr room ↦ elim (Bool-cases (is_zero hash)) [
          | inl zero_hash ↦ rw (room, zero_hash) (inl off)
          | inr given ↦
              simp (room, given)
                (begin-Started a size hash safe (open_recv_file D a.downloads_dir_fd safe) off s lo
                  hi (open-Created D a.downloads_dir_fd safe))
        ]
      ]

  -- Where no transfer is active, whatever the METADATA frame holds and whatever the disk
  -- answers, afterwards none is active, or one has begun whose name is safe, whose size is
  -- between 1 byte and 100 GiB, whose local name begins with an "r" while the downloads
  -- directory is open, and of which nothing was written and nothing reported.
  pub metadata-Started :
      (a : App) (pt : Bytes)
      → (a.peers i).rx_file.active ≡ false
      → Started a.effects i (rx_metadata S env D i a pt).0
  unfolding rx_metadata Started
  metadata-Started a pt off =
      let safe = sanitize_filename (c_string 255 (drop 9 pt)) 256 (D.random 0) in
      let size = read64 pt 265 in
      elim (Bool-cases (size == 0 || ltb max_file_size size)) [
        | inl bad ↦ rw bad (inl off)
        | inr fits ↦ rw fits (
            space-Started a size (take 32 (drop 273 pt)) safe D.available off
              (sanitize-IsSafe _ 256 (D.random 0) (omega arith)) (ground arith) (ground arith))
      ]
