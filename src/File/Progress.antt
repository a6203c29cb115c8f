-- ===== src/File/Progress.antt =====
-- What file_transfer_handle_tx of src/file_transfer.c keeps true of a file that is being sent.
use noxtor_cli.Prelude.{
  join, ℕ, ◌+◌, ◌%◌, ◌≤◌, ◌<◌, ◌≡◌, refl, ap, sym, subst, ◌∙◌, ◌⊎◌, arith, true, List, [], ◌∷◌,
  ◌++◌, Option, none, some, length, take, min, ◌-◌, length-append, append_assoc, append_nil,
}
use noxtor_cli.Common.{Bytes, u32_mod}
use noxtor_cli.Sodium.{Sodium}
use noxtor_cli.Noise.Cipher.{Session, noise_encrypt}
use noxtor_cli.Peer.Types.{Peer, App, Effect, FileTx}
use noxtor_cli.Peer.Actions.{no_tx, close_fd}
use noxtor_cli.File.Writes.{file_bytes}
use noxtor_cli.File.Sending.{
  Written, took, write_again, write_failed, Taken, gave, read_again, read_failed, file_frame,
}

-- The ciphertexts of chunks, in the order of the session.
unfoldable pub Encrypts : Sodium → Session → List Bytes → List Bytes → Session → Type 0
Encrypts S s [] [] t = s ≡ t
Encrypts S s [] (c ∷ cs) t = ⊥
Encrypts S s (m ∷ ms) [] t = ⊥
Encrypts S s (m ∷ ms) (c ∷ cs) t =
    (v : Session) × (noise_encrypt S s m ≡ (v, some c)) × Encrypts S v ms cs t

-- The frames of the ciphertexts, numbered from `seq` on.
unfoldable pub file_stream : ℕ → List Bytes → Bytes
file_stream seq [] = []
file_stream seq (c ∷ cs) = file_frame seq c ++ file_stream ((seq + 1) % u32_mod) cs

unfoldable pub next_number : ℕ → List Bytes → ℕ
next_number seq [] = seq
next_number seq (c ∷ cs) = next_number ((seq + 1) % u32_mod) cs

pub Encrypts-one_more :
    (S : Sodium) (s t u : Session) (ms cs : List Bytes) (m c : Bytes)
    → Encrypts S s ms cs t
    → noise_encrypt S t m ≡ (u, some c)
    → Encrypts S s (ms ++ m ∷ []) (cs ++ c ∷ []) u
unfolding Encrypts
Encrypts-one_more S s t u [] [] m c e n =
    (u, subst (λ x. noise_encrypt S x m ≡ (u, some c)) (sym e) n, refl)
Encrypts-one_more S s t u [] (d ∷ cs) m c e n = absurd e
Encrypts-one_more S s t u (k ∷ ms) [] m c e n = absurd e
Encrypts-one_more S s t u (k ∷ ms) (d ∷ cs) m c (v, f, e) n =
    (v, f, Encrypts-one_more S v t u ms cs m c e n)

pub stream_one_more :
    (seq : ℕ) (cs : List Bytes) (c : Bytes)
    → file_stream seq (cs ++ c ∷ []) ≡ file_stream seq cs ++ file_frame (next_number seq cs) c
unfolding file_stream next_number
stream_one_more seq [] c = append_nil (file_frame seq c)
stream_one_more seq (d ∷ cs) c =
    ap (λ b. file_frame seq d ++ b) (stream_one_more ((seq + 1) % u32_mod) cs c)
    ∙ sym (append_assoc (file_frame seq d) (file_stream ((seq + 1) % u32_mod) cs) _)

pub number_one_more :
    (seq : ℕ) (cs : List Bytes) (c : Bytes)
    → next_number seq (cs ++ c ∷ []) ≡ (next_number seq cs + 1) % u32_mod
unfolding next_number
number_one_more seq [] c = refl
number_one_more seq (d ∷ cs) c = number_one_more ((seq + 1) % u32_mod) cs c

pub join_one_more :
    (ms : List Bytes) (m : Bytes) → length (join (ms ++ m ∷ [])) ≡ length (join ms) + length m
join_one_more [] m = let e = ap (λ (b : Bytes). length b) (append_nil m) in omega arith
join_one_more (k ∷ ms) m =
    let a = length-append k (join (ms ++ m ∷ [])) in
    let b = length-append k (join ms) in let ih = join_one_more ms m in omega arith

pub join_end : (ms : List Bytes) (m : Bytes) → join (ms ++ m ∷ []) ≡ join ms ++ m
join_end [] m = append_nil m
join_end (k ∷ ms) m = ap (λ b. k ++ b) (join_end ms m) ∙ sym (append_assoc k (join ms) m)

-- Where a transfer began: the effects, the session and the number before its first chunk, the
-- connection, the size that was announced, and the
-- content of the file.
pub record Origin : Type 0 where
  pub base : List Effect
  pub session : Session
  pub seq : ℕ
  pub fd : ℕ
  pub size : ℕ
  pub content : Bytes

-- The chunks `ms` were encrypted and written, and nothing is buffered.
pub record Between (S : Sodium) (o : Origin) (i : ℕ) (a : App) : Type 0 where
  pub ms : List Bytes
  pub cs : List Bytes
  pub current : Session
  pub rest : Bytes
  pub new : List Effect
  pub on : (a.peers i).tx_file.active ≡ true
  pub connected : (a.peers i).fd ≡ some o.fd
  pub has : (a.peers i).session ≡ some current
  pub encrypted : Encrypts S o.session ms cs current
  pub numbered : (a.peers i).tx_seq ≡ next_number o.seq cs
  pub total : (a.peers i).tx_file.total_size ≡ o.size
  pub counted : (a.peers i).tx_file.sent_bytes ≡ length (join ms)
  pub left : length (join ms) < o.size
  pub parted : join ms ++ rest ≡ o.content
  pub empty : (a.peers i).tx_file.tx_buf ≡ []
  pub recorded : a.effects ≡ o.base ++ new
  pub written : file_bytes o.fd new ≡ file_stream o.seq cs

-- The frame of one more chunk is buffered, and a part of it may be written.
pub record Within (S : Sodium) (o : Origin) (i : ℕ) (a : App) : Type 0 where
  pub ms : List Bytes
  pub cs : List Bytes
  pub m : Bytes
  pub c : Bytes
  pub current : Session
  pub rest : Bytes
  pub new : List Effect
  pub on : (a.peers i).tx_file.active ≡ true
  pub connected : (a.peers i).fd ≡ some o.fd
  pub has : (a.peers i).session ≡ some current
  pub encrypted : Encrypts S o.session (ms ++ m ∷ []) (cs ++ c ∷ []) current
  pub numbered : (a.peers i).tx_seq ≡ next_number o.seq cs
  pub total : (a.peers i).tx_file.total_size ≡ o.size
  pub counted : (a.peers i).tx_file.sent_bytes ≡ length (join ms)
  pub chunk : (a.peers i).tx_file.current_chunk_size ≡ length m
  pub parted : join (ms ++ m ∷ []) ++ rest ≡ o.content
  pub fits : length (join ms) + length m ≤ o.size
  pub some_bytes : 1 ≤ length m
  pub buffered : (a.peers i).tx_file.tx_buf ≡ file_frame (next_number o.seq cs) c
  pub unwritten : (a.peers i).tx_file.tx_offset < length (file_frame (next_number o.seq cs) c)
  pub recorded : a.effects ≡ o.base ++ new
  pub written :
      file_bytes o.fd new
      ≡ file_stream o.seq cs
        ++ take (a.peers i).tx_file.tx_offset (file_frame (next_number o.seq cs) c)

-- As many bytes as announced were sent, in whole frames.
pub record Finished (S : Sodium) (o : Origin) (i : ℕ) (a : App) : Type 0 where
  pub ms : List Bytes
  pub cs : List Bytes
  pub current : Session
  pub rest : Bytes
  pub new : List Effect
  pub off : (a.peers i).tx_file ≡ no_tx
  pub encrypted : Encrypts S o.session ms cs current
  pub complete : length (join ms) ≡ o.size
  pub parted : join ms ++ rest ≡ o.content
  pub recorded : a.effects ≡ o.base ++ new
  pub written : file_bytes o.fd new ≡ file_stream o.seq cs

-- write took nothing of what is left of the frame, or failed.
unfoldable pub WriteRefused : Peer → (ℕ → Written) → Type 0
WriteRefused p put =
    let left = length p.tx_file.tx_buf - p.tx_file.tx_offset in
    (put left ≡ took 0) ⊎ (put left ≡ write_failed)

unfoldable pub NoCiphertext : Option Bytes → Type 0
NoCiphertext none = Unit {0}
NoCiphertext (some []) = Unit {0}
NoCiphertext (some (c ∷ cs)) = ⊥

-- How many bytes are read for a chunk.
abbrev pub to_read : Peer → ℕ
to_read p = min (p.tx_file.total_size - p.tx_file.sent_bytes) 4096

-- The bytes that were read are not encrypted.
pub record Unencrypted (S : Sodium) (p : Peer) (get : ℕ → Taken) : Type 0 where
  pub bytes : Bytes
  pub current : Session
  pub given : get (to_read p) ≡ gave bytes
  pub has : p.session ≡ some current
  pub refused : NoCiphertext (noise_encrypt S current (take (to_read p) bytes)).1

-- read failed or found the end of the file, or the chunk is not encrypted.
unfoldable pub ReadRefused : Sodium → Peer → (ℕ → Taken) → Type 0
ReadRefused S p get =
    (get (to_read p) ≡ read_failed) ⊎ ((get (to_read p) ≡ gave []) ⊎ Unencrypted S p get)

-- A reason to drop a file: a frame is buffered and cannot be written, or no frame is buffered and
-- the next chunk is not to be had.
unfoldable pub Stopped : Sodium → Peer → (ℕ → Written) → (ℕ → Taken) → Type 0
Stopped S p put get =
    ((0 < length p.tx_file.tx_buf) × WriteRefused p put)
    ⊎ ((p.tx_file.tx_buf ≡ []) × ReadRefused S p get)

-- The file was dropped for a reason, with these effects.
pub record Dropped (why : Type 0) (es : List Effect) (i : ℕ) (a : App) : Type 0 where
  pub off : (a.peers i).tx_file ≡ no_tx
  pub reason : why
  pub recorded : a.effects ≡ es

-- Nothing is to be done before the connection or the file is ready again.
unfoldable pub Waits : Peer → (ℕ → Written) → (ℕ → Taken) → Type 0
Waits p put get =
    ((0 < length p.tx_file.tx_buf)
      × (put (length p.tx_file.tx_buf - p.tx_file.tx_offset) ≡ write_again))
    ⊎ ((p.tx_file.tx_buf ≡ []) × (get (to_read p) ≡ read_again))

-- A frame was buffered where none was, or more bytes of it were written.
unfoldable pub MovesOn : FileTx → FileTx → Type 0
MovesOn f g = (f.tx_buf ≡ []) ⊎ (f.tx_offset < g.tx_offset)

-- What a call makes of a file that is being sent, by the answers of write and read.
unfoldable pub Sent : Sodium → Origin → ℕ → App → (ℕ → Written) → (ℕ → Taken) → App → Type 0
Sent S o i a put get b =
    (Waits (a.peers i) put get × (b ≡ a))
    ⊎ ((Between S o i b × ((a.peers i).tx_file.sent_bytes < (b.peers i).tx_file.sent_bytes))
        ⊎ ((Within S o i b × MovesOn (a.peers i).tx_file (b.peers i).tx_file)
            ⊎ (Finished S o i b
                ⊎ Dropped (Stopped S (a.peers i) put get)
                    (a.effects ++ close_fd (a.peers i).tx_file.fd) i b)))
