-- ===== src/File/Storage.antt =====
-- src/file_transfer.c: write_to_file, verify_downloads_dir_fd and open_recv_file, with what the
-- system and libsodium answer as a parameter.
use noxtor_cli.Prelude.{
  ℕ, zero, suc, ◌/◌, ◌^◌, ◌%◌, Bool, false, not, ◌||◌, List, [], ◌∷◌, ◌++◌, Option, none, some, leb,
  ◌==◌, if◌then◌else◌, length, take, drop, map,
}
use noxtor_cli.Common.{Bytes, Err, Result, ok, err}
use noxtor_cli.Peer.Types.{Effect, write}
use noxtor_cli.File.Name.{slash, dot, hex_digit}

-- What fstat tells of a directory.
pub record DirStat : Type 0 where
  pub is_link : Bool
  pub is_dir : Bool
  pub owned : Bool
  pub mode : ℕ

-- The answer of openat with O_CREAT | O_EXCL | O_NOFOLLOW: a descriptor, EEXIST or another error.
pub data Opened : Type 0 where
  opened : ℕ → Opened
  exists failed : Opened

-- The k-th write of n bytes to a file takes some of them, or is `none` on an error; a write that is
-- interrupted is made again, so its answer is that of the last attempt. `random` is randombytes_random, called for the name and for the suffix. `available` is the product
-- of f_bavail and f_frsize, or `none` where fstatvfs fails. The functions of the hash are
-- crypto_generichash_init, _update and _final; the state of a hash is the bytes hashed so far.
pub record Storage : Type 0 where
  pub payload_alloc : Bool
  pub dir : Option DirStat
  pub available : Option ℕ
  pub openat : Bytes → Opened
  pub random : ℕ → ℕ
  pub write_file : ℕ → ℕ → Option ℕ
  pub hash_init : Bool
  pub hash_update : Bytes → Bool
  pub hash_final : Bytes → Option Bytes

abbrev pub cons_effect : Effect → List Effect × Result (Unit {0}) → List Effect × Result (Unit {0})
cons_effect e (es, r) = (e ∷ es, r)

-- One answer to the rest of the bytes; `next` is the loop on what is left after it.
abbrev pub on_answer :
    ℕ → Bytes → (ℕ → List Effect × Result (Unit {0})) → Option ℕ → List Effect × Result (Unit {0})
on_answer fd rest next none = ([], err Err.io)
on_answer fd rest next (some zero) = ([], err Err.io)
on_answer fd rest next (some (suc n)) = cons_effect (write fd (take (suc n) rest)) (next (suc n))

-- The loop over `written`, on the bytes that are left.
unfoldable pub write_loop : Storage → ℕ → ℕ → ℕ → Bytes → List Effect × Result (Unit {0})
write_loop D fd zero k rest = ([], err Err.overflow)
write_loop D fd (suc fuel) k rest =
    if length rest == 0
    then ([], ok tt)
    else on_answer fd rest (λ n. write_loop D fd fuel (suc k) (drop n rest))
        (D.write_file k (length rest))

-- Each round writes a byte at least.
unfoldable pub write_to_file : Storage → ℕ → Bytes → List Effect × Result (Unit {0})
write_to_file D fd bytes = write_loop D fd (suc (length bytes)) 0 bytes

-- 0777 and 0700
unfoldable pub verify_downloads_dir_fd : Option DirStat → Result (Unit {0})
verify_downloads_dir_fd none = err Err.io
verify_downloads_dir_fd (some st) =
    if st.is_link
    then err Err.config
    else if not st.is_dir
    then err Err.config
    else if not st.owned
    then err Err.config
    else if not (st.mode % 512 == 448)
    then err Err.config
    else ok tt

-- strchr
unfoldable pub has_char : ℕ → Bytes → Bool
has_char c [] = false
has_char c (d ∷ ds) = d == c || has_char c ds

-- "received_%s"
abbrev pub received_name : Bytes → Bytes
received_name safe = 114 ∷ 101 ∷ 99 ∷ 101 ∷ 105 ∷ 118 ∷ 101 ∷ 100 ∷ 95 ∷ safe

-- ".%08x"
abbrev pub random_suffix : ℕ → Bytes
random_suffix rnd =
    dot ∷ map (λ i. hex_digit (rnd / 16 ^ i % 16)) (7 ∷ 6 ∷ 5 ∷ 4 ∷ 3 ∷ 2 ∷ 1 ∷ 0 ∷ [])

abbrev pub local_name_size : ℕ
local_name_size = 300

abbrev pub fitting : Bytes → Result Bytes
fitting name = if leb local_name_size (length name) then err Err.config else ok name

abbrev pub second_try : Opened → Bytes → Result (ℕ × Bytes)
second_try (opened fd) name = ok (fd, name)
second_try exists name = err Err.io
second_try failed name = err Err.io

abbrev pub open_other : Storage → Result Bytes → Result (ℕ × Bytes)
open_other D (err e) = err e
open_other D (ok name) = second_try (D.openat name) name

abbrev pub first_try : Storage → Opened → Bytes → Bytes → Result (ℕ × Bytes)
first_try D (opened fd) safe name = ok (fd, name)
first_try D exists safe name =
    open_other D (fitting (received_name safe ++ random_suffix (D.random 1)))
first_try D failed safe name = err Err.io

abbrev pub open_named : Storage → Bytes → Result Bytes → Result (ℕ × Bytes)
open_named D safe (err e) = err e
open_named D safe (ok name) = first_try D (D.openat name) safe name

abbrev pub in_verified : Storage → Bytes → Result (Unit {0}) → Result (ℕ × Bytes)
in_verified D safe (err e) = err Err.config
in_verified D safe (ok u) = open_named D safe (fitting (received_name safe))

abbrev pub in_dir : Storage → Bytes → Option ℕ → Result (ℕ × Bytes)
in_dir D safe none = err Err.config
in_dir D safe (some dir) = in_verified D safe (verify_downloads_dir_fd D.dir)

-- The descriptor and the name of the file that is created; `dir` is downloads_dir_fd. The name fits
-- local_name of the slot, so the copy into it is never cut.
unfoldable pub open_recv_file : Storage → Option ℕ → Bytes → Result (ℕ × Bytes)
open_recv_file D dir safe =
    if has_char slash safe || has_char 92 safe then err Err.config else in_dir D safe dir
