-- ===== src/Queue.antt =====
-- db_process_queue of src/database.c: the messages that were queued for a peer are sent. SQLite's
-- rows are a parameter.
pub mod Order
use noxtor_cli.Prelude.{
  ℕ, zero, suc, ◌+◌, ◌-◌, Bool, true, false, not, ◌||◌, ◌&&◌, List, [], ◌∷◌, ◌++◌, Option, none,
  some, ltb, leb, ◌==◌, if◌then◌else◌, length, get_or,
}
use noxtor_cli.Common.{Bytes, Err, Result, ok, err, c_string, mac_len}
use noxtor_cli.Peer.Types.{App, delete_queued}

-- A row of the table `queue`: its id, the sizes of its two blobs, whether sodium_malloc gives room for
-- the ciphertext and for the plaintext, and what decrypt_payload makes of it.
pub record Row : Type 0 where
  pub id : ℕ
  pub nonce_bytes : ℕ
  pub cipher_bytes : ℕ
  pub cipher_alloc : Bool
  pub plain_alloc : Bool
  pub plain : Option Bytes

-- QUEUE_BATCH_LIMIT
abbrev pub batch_limit : ℕ
batch_limit = 256

abbrev pub well_sized : Row → Bool
well_sized r =
    not (not (r.nonce_bytes == 24) || leb r.cipher_bytes mac_len || ltb 4112 r.cipher_bytes)

abbrev pub cons_row : Row → Result (List Row) → Result (List Row)
cons_row r (ok rs) = ok (r ∷ rs)
cons_row r (err e) = err e

-- The first rows of the right sizes, as many as there is room for.
unfoldable pub batch : ℕ → List Row → Result (List Row)
batch room [] = ok []
batch room (r ∷ rs) =
    let rest = batch (if well_sized r then room - 1 else room) rs in
    if room == 0
    then ok []
    else if not (well_sized r)
    then rest
    else if not r.cipher_alloc
    then err Err.alloc
    else cons_row r rest

abbrev pub deleted : ℕ → App → App
deleted id a = record a { effects = a.effects ++ delete_queued id ∷ [] }

abbrev pub after_send :
    ℕ → (App → App × Result (Unit {0})) → App × Result (Unit {0}) → App × Result (Unit {0})
after_send id next (b, ok u) = next (deleted id b)
after_send id next (b, err e) = (b, err e)

-- The plaintext of a queued message ends with a NUL.
abbrev pub terminated : Bytes → Bool
terminated p = not (length p == 0) && get_or p (length p - 1) 1 == 0

abbrev pub text_of : Bytes → Bytes
text_of p = c_string (length p) p

abbrev pub send_plain :
    (App → Bytes → App × Result (Unit {0}))
    → ℕ
    → (App → App × Result (Unit {0}))
    → App
    → Option Bytes
    → App × Result (Unit {0})
send_plain send id next a none = next (deleted id a)
send_plain send id next a (some p) =
    if not (terminated p) then next (deleted id a) else after_send id next (send a (text_of p))

-- A message is deleted after it was sent, or when it cannot be read; the first that cannot be sent
-- ends the loop.
unfoldable pub send_rows :
    (App → Bytes → App × Result (Unit {0})) → List Row → App → App × Result (Unit {0})
send_rows send [] a = (a, ok tt)
send_rows send (r ∷ rs) a =
    if not r.plain_alloc
    then (a, err Err.alloc)
    else send_plain send r.id (λ b. send_rows send rs b) a r.plain

abbrev pub send_batch :
    (App → Bytes → App × Result (Unit {0})) → App → Result (List Row) → App × Result (Unit {0})
send_batch send a (err e) = (a, err e)
send_batch send a (ok rs) = send_rows send rs a

abbrev pub batch_of : Result (List Row) → Result (List Row)
batch_of (err e) = err e
batch_of (ok rs) = batch batch_limit rs

-- `rows` are the rows of the recipient by their ids, or the error of SQLite.
unfoldable pub db_process_queue :
    (App → Bytes → App × Result (Unit {0})) → Result (List Row) → App → App × Result (Unit {0})
db_process_queue send rows a = send_batch send a (batch_of rows)
