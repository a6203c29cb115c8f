-- ===== src/File/Stages.antt =====
-- The stages of a file that is being received by src/file_transfer.c, from its announcement on.
use noxtor_cli.Prelude.{ℕ, ◌<◌, ◌≡◌, ◌⊎◌, true, List, [], ◌∷◌, ◌++◌, some, length}
use noxtor_cli.Common.{Bytes}
use noxtor_cli.Peer.Types.{App, Effect, FileRx, unlink}
use noxtor_cli.Peer.Actions.{no_rx}
use noxtor_cli.File.Storage.{Storage}
use noxtor_cli.File.Writes.{file_bytes, reports}
use noxtor_cli.File.Receive.{be64}

-- What the METADATA frame announced, and where the file is stored: under "r" and `tail`, on the
-- descriptor `fd`, in the directory `dir`.
pub record Announced : Type 0 where
  pub name : Bytes
  pub size : ℕ
  pub hash : Bytes
  pub fd : ℕ
  pub dir : ℕ
  pub tail : Bytes

abbrev pub local : Announced → Bytes
local n = 114 ∷ n.tail

abbrev pub transfer : Announced → Bytes → ℕ → FileRx
transfer n bytes time = record {
  active = true;
  fd = some n.fd;
  filename = n.name;
  expected_size = n.size;
  received_bytes = length bytes;
  expected_hash = n.hash;
  hashed = be64 n.size ++ bytes;
  last_chunk = time;
  local_name = local n;
}

-- Since `base`, these bytes of the file were written and hashed, fewer than announced, and no file
-- was reported.
pub record Receiving (base : List Effect) (n : Announced) (i : ℕ) (a : App) (bytes : Bytes)
    : Type 0 where
  pub time : ℕ
  pub rx : (a.peers i).rx_file ≡ transfer n bytes time
  pub dir_open : a.downloads_dir_fd ≡ some n.dir
  pub new : List Effect
  pub recorded : a.effects ≡ base ++ new
  pub written : file_bytes n.fd new ≡ bytes
  pub silent : reports new ≡ []
  pub incomplete : length bytes < n.size

-- Since `base`, exactly the announced bytes were written, their hash is the announced one, and the
-- file was reported once.
pub record Stored (D : Storage) (base : List Effect) (n : Announced) (i : ℕ) (a : App)
    (bytes : Bytes) : Type 0 where
  pub rx : (a.peers i).rx_file ≡ no_rx
  pub new : List Effect
  pub recorded : a.effects ≡ base ++ new
  pub written : file_bytes n.fd new ≡ bytes
  pub reported : reports new ≡ n.name ∷ []
  pub sized : length bytes ≡ n.size
  pub hashed : D.hash_final (be64 n.size ++ bytes) ≡ some n.hash

-- Since `base`, the file was removed and not reported.
pub record Dropped (base : List Effect) (n : Announced) (i : ℕ) (a : App) : Type 0 where
  pub rx : (a.peers i).rx_file ≡ no_rx
  pub earlier : List Effect
  pub later : List Effect
  pub recorded : a.effects ≡ base ++ (earlier ++ unlink (local n) ∷ later)
  pub silent : reports (earlier ++ unlink (local n) ∷ later) ≡ []

-- How a chunk may leave the transfer.
unfoldable pub Outcome : Storage → List Effect → Announced → ℕ → Bytes → App → Type 0
Outcome D base n i bytes a =
    Receiving base n i a bytes ⊎ (Stored D base n i a bytes ⊎ Dropped base n i a)
