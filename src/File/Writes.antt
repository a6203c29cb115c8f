-- ===== src/File/Writes.antt =====
-- write_to_file of src/file_transfer.c writes all bytes in their order, or fails.
use noxtor_cli.Prelude.{
  ℕ, zero, suc, ◌<◌, ◌≡◌, refl, ap, sym, ◌∙◌, arith, true, false, List, [], ◌∷◌, ◌++◌, Option, none,
  some, ◌==◌, if◌then◌else◌, length, take, drop, append_assoc, take-append-drop, length-drop,
}
use noxtor_cli.Common.{Bytes, Err, Result, ok, err}
use noxtor_cli.Peer.Types.{
  Effect, epoll_remove, close, unlink, add_contact, write, fsync, file_received, incoming,
  delete_queued,
}
use noxtor_cli.File.Storage.{Storage, write_loop, write_to_file, on_answer, cons_effect}

-- What the effects write to a descriptor, one behind the other.
unfoldable pub file_bytes : ℕ → List Effect → Bytes
file_bytes fd [] = []
file_bytes fd (write d bytes ∷ es) = (if d == fd then bytes else []) ++ file_bytes fd es
file_bytes fd (epoll_remove d ∷ es) = file_bytes fd es
file_bytes fd (close d ∷ es) = file_bytes fd es
file_bytes fd (unlink n ∷ es) = file_bytes fd es
file_bytes fd (add_contact o n k ∷ es) = file_bytes fd es
file_bytes fd (fsync d ∷ es) = file_bytes fd es
file_bytes fd (file_received n ∷ es) = file_bytes fd es
file_bytes fd (incoming t ∷ es) = file_bytes fd es
file_bytes fd (delete_queued n ∷ es) = file_bytes fd es

-- The files that the effects report as received.
unfoldable pub reports : List Effect → List Bytes
reports [] = []
reports (file_received n ∷ es) = n ∷ reports es
reports (write d bytes ∷ es) = reports es
reports (epoll_remove d ∷ es) = reports es
reports (close d ∷ es) = reports es
reports (unlink n ∷ es) = reports es
reports (add_contact o n k ∷ es) = reports es
reports (fsync d ∷ es) = reports es
reports (incoming t ∷ es) = reports es
reports (delete_queued n ∷ es) = reports es

pub file_bytes-append :
    (fd : ℕ) (es fs : List Effect) → file_bytes fd (es ++ fs) ≡ file_bytes fd es ++ file_bytes fd fs
unfolding file_bytes
file_bytes-append fd [] fs = refl
file_bytes-append fd (write d bytes ∷ es) fs =
    ap (λ bs. (if d == fd then bytes else []) ++ bs) (file_bytes-append fd es fs)
    ∙ sym (append_assoc (if d == fd then bytes else []) (file_bytes fd es) (file_bytes fd fs))
file_bytes-append fd (epoll_remove d ∷ es) fs = file_bytes-append fd es fs
file_bytes-append fd (close d ∷ es) fs = file_bytes-append fd es fs
file_bytes-append fd (unlink n ∷ es) fs = file_bytes-append fd es fs
file_bytes-append fd (add_contact o n k ∷ es) fs = file_bytes-append fd es fs
file_bytes-append fd (fsync d ∷ es) fs = file_bytes-append fd es fs
file_bytes-append fd (file_received n ∷ es) fs = file_bytes-append fd es fs
file_bytes-append fd (incoming t ∷ es) fs = file_bytes-append fd es fs
file_bytes-append fd (delete_queued n ∷ es) fs = file_bytes-append fd es fs

pub reports-append : (es fs : List Effect) → reports (es ++ fs) ≡ reports es ++ reports fs
unfolding reports
reports-append [] fs = refl
reports-append (file_received n ∷ es) fs = ap (λ ns. n ∷ ns) (reports-append es fs)
reports-append (write d bytes ∷ es) fs = reports-append es fs
reports-append (epoll_remove d ∷ es) fs = reports-append es fs
reports-append (close d ∷ es) fs = reports-append es fs
reports-append (unlink n ∷ es) fs = reports-append es fs
reports-append (add_contact o n k ∷ es) fs = reports-append es fs
reports-append (fsync d ∷ es) fs = reports-append es fs
reports-append (incoming t ∷ es) fs = reports-append es fs
reports-append (delete_queued n ∷ es) fs = reports-append es fs

-- All bytes were written to the descriptor, or some of the first of them and then an error.
unfoldable pub Wrote : ℕ → Bytes → List Effect × Result (Unit {0}) → Type 0
Wrote fd bytes (es, ok u) = (file_bytes fd es ≡ bytes) × (reports es ≡ [])
Wrote fd bytes (es, err e) =
    (e ≡ Err.io) × (later : Bytes) × (file_bytes fd es ++ later ≡ bytes) × (reports es ≡ [])

same_fd : (fd : ℕ) → (fd == fd) ≡ true
same_fd fd = ground arith

cons-Wrote :
    (fd : ℕ) (rest : Bytes) (n : ℕ) (r : List Effect × Result (Unit {0}))
    → Wrote fd (drop n rest) r
    → Wrote fd rest (cons_effect (write fd (take n rest)) r)
unfolding Wrote file_bytes reports
cons-Wrote fd rest n (es, ok u) (w, q) = (rw (same_fd fd, w) (take-append-drop n rest), q)
cons-Wrote fd rest n (es, err e) (io, later, w, q) = (
  io,
  later,
  rw (same_fd fd, append_assoc (take n rest) (file_bytes fd es) later, w) (take-append-drop n rest),
  q,
)

on_answer-Wrote :
    (fd : ℕ) (rest : Bytes) (next : ℕ → List Effect × Result (Unit {0})) (o : Option ℕ)
    → ((n : ℕ) → Wrote fd (drop (suc n) rest) (next (suc n)))
    → Wrote fd rest (on_answer fd rest next o)
unfolding Wrote file_bytes reports
on_answer-Wrote fd rest next none k = (refl, rest, refl, refl)
on_answer-Wrote fd rest next (some zero) k = (refl, rest, refl, refl)
on_answer-Wrote fd rest next (some (suc n)) k = cons-Wrote fd rest (suc n) (next (suc n)) (k n)

write_loop-Wrote :
    (D : Storage) (fd fuel k : ℕ) (rest : Bytes)
    → length rest < fuel
    → Wrote fd rest (write_loop D fd fuel k rest)
unfolding write_loop Wrote file_bytes reports
write_loop-Wrote D fd zero k rest h = absurd (omega arith)
write_loop-Wrote D fd (suc fuel) k [] h = (refl, refl)
write_loop-Wrote D fd (suc fuel) k (b ∷ bs) h =
    let some_left : (suc (length bs) == 0) ≡ false = ground arith in
    rw some_left (
      on_answer-Wrote fd (b ∷ bs) (λ n. write_loop D fd fuel (suc k) (drop n (b ∷ bs)))
        (D.write_file k (suc (length bs)))
        (λ n.
          write_loop-Wrote D fd fuel (suc k) (drop n bs) (let l = length-drop n bs in omega arith)))

-- Whatever part of the bytes each write takes, the loop ends within the rounds that it is given,
-- and either all bytes were written to the descriptor in their order, or it reports an I/O error
-- after some of the first of them.
pub write_to_file-Wrote :
    (D : Storage) (fd : ℕ) (bytes : Bytes) → Wrote fd bytes (write_to_file D fd bytes)
unfolding write_to_file
write_to_file-Wrote D fd bytes = write_loop-Wrote D fd (suc (length bytes)) 0 bytes (omega arith)
