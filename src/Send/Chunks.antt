-- ===== src/Send/Chunks.antt =====
-- nox_next_chunk_size of src/stdin_handler.c: where a long message is cut.
use noxtor_cli.Prelude.{
  ℕ, zero, suc, ◌+◌, ◌-◌, ◌/◌, ◌≤◌, ◌<◌, ◌≡◌, refl, ◌⊎◌, inl, inr, Bool, true, false, ltb, leb,
  ◌==◌, if◌then◌else◌, get_or, arith, Bool-cases, leb→le, sym,
}
use noxtor_cli.Common.{Bytes, uint64_max}

abbrev pub chunk_limit : ℕ
chunk_limit = 4000

-- (b & 0xC0) == 0x80: the byte continues a UTF-8 sequence.
abbrev pub is_continuation : ℕ → Bool
is_continuation b = b / 64 == 2

-- The while loop: from `size` down to a byte that starts a character, or to 0.
unfoldable pub back_off : Bytes → ℕ → ℕ → ℕ
back_off msg offset zero = 0
back_off msg offset (suc size) =
    let rest = back_off msg offset size in
    if is_continuation (get_or msg (offset + suc size) 0) then rest else suc size

abbrev pub at_least_one : ℕ → ℕ
at_least_one zero = 1
at_least_one (suc n) = suc n

-- SIZE_MAX is that of a 64-bit machine.
unfoldable pub next_chunk_size : Bytes → ℕ → ℕ → ℕ
next_chunk_size msg offset total_len =
    if leb total_len offset
    then 0
    else if leb (total_len - offset) chunk_limit
    then total_len - offset
    else if ltb (uint64_max - chunk_limit) offset
    then chunk_limit
    else at_least_one (back_off msg offset chunk_limit)

back_off_le : (msg : Bytes) (offset n : ℕ) → back_off msg offset n ≤ n
unfolding back_off
back_off_le msg offset zero = ground arith
back_off_le msg offset (suc n) = let ih = back_off_le msg offset n in ground arith

starts_character :
    (msg : Bytes) (offset n : ℕ)
    → (back_off msg offset n ≡ 0)
      ⊎ (is_continuation (get_or msg (offset + back_off msg offset n) 0) ≡ false)
unfolding back_off
starts_character msg offset zero = inl refl
starts_character msg offset (suc n) =
    elim (Bool-cases (is_continuation (get_or msg (offset + suc n) 0))) [
      | inl e ↦ rw e (starts_character msg offset n)
      | inr e ↦ rw e (inr e)
    ]

le_cases : (i n : ℕ) → i ≤ suc n → (i ≤ n) ⊎ (i ≡ suc n)
le_cases i n h = ground arith

all_continue :
    (msg : Bytes) (offset n : ℕ)
    → back_off msg offset n ≡ 0
    → (i : ℕ) → 0 < i
    → i ≤ n
    → is_continuation (get_or msg (offset + i) 0) ≡ true
unfolding back_off
all_continue msg offset zero h i a b = absurd (omega arith)
all_continue msg offset (suc n) h i a b =
    elim (Bool-cases (is_continuation (get_or msg (offset + suc n) 0))) [
      | inl e ↦
          let rest : back_off msg offset n ≡ 0 = ground arith in
          elim (le_cases i n b) [
            | inl le ↦ all_continue msg offset n rest i a le
            | inr eq ↦ rw eq e
          ]
      | inr e ↦ absurd (ground arith)
    ]

-- Where the message is cut: at its end, before a byte that starts a character, or, where none
-- of the next 4000 bytes starts one, one byte on.
pub IsCut : Bytes → ℕ → ℕ → ℕ → Type 0
IsCut msg offset total_len size =
    (offset + size ≡ total_len)
    ⊎ ((is_continuation (get_or msg (offset + size) 0) ≡ false)
        ⊎ ((size ≡ 1)
            × ((i : ℕ)
                → 0 < i
                → i ≤ chunk_limit
                → is_continuation (get_or msg (offset + i) 0) ≡ true)))

IsCut-back :
    (msg : Bytes) (offset total_len n : ℕ)
    → n ≡ back_off msg offset chunk_limit
    → IsCut msg offset total_len (at_least_one n)
unfolding IsCut
IsCut-back msg offset total_len zero e =
    inr (inr (refl, all_continue msg offset chunk_limit (sym e)))
IsCut-back msg offset total_len (suc n) e = elim (starts_character msg offset chunk_limit) [
  | inl z ↦ absurd (omega arith)
  | inr s ↦ inr (inl (rw e s))
]

at_least_one_bounds :
    (n : ℕ) → n ≤ chunk_limit → (1 ≤ at_least_one n) × (at_least_one n ≤ chunk_limit)
at_least_one_bounds zero h = (omega arith, omega arith)
at_least_one_bounds (suc n) h = (omega arith, h)

IsCut-at_end :
    (msg : Bytes) (offset total_len : ℕ)
    → offset < total_len
    → total_len - offset ≤ chunk_limit
    → (1 ≤ total_len - offset)
      × (total_len - offset ≤ chunk_limit)
      × (offset + (total_len - offset) ≤ total_len)
      × IsCut msg offset total_len (total_len - offset)
unfolding IsCut
IsCut-at_end msg offset total_len h s = (omega arith, s, omega arith, inl (omega arith))

-- As long as bytes are left of a message of at most 2^64 - 1 bytes, the next chunk has between 1
-- and 4000 of them, does not reach past the end, and ends at the end, before a byte that starts a
-- character, or, where none of the next 4000 bytes starts one, one byte on.
pub next_chunk_size-IsCut :
    (msg : Bytes) (offset total_len : ℕ)
    → offset < total_len
    → total_len ≤ uint64_max
    → (1 ≤ next_chunk_size msg offset total_len)
      × (next_chunk_size msg offset total_len ≤ chunk_limit)
      × (offset + next_chunk_size msg offset total_len ≤ total_len)
      × IsCut msg offset total_len (next_chunk_size msg offset total_len)
unfolding next_chunk_size
next_chunk_size-IsCut msg offset total_len h m =
    let (lo, hi) =
      at_least_one_bounds (back_off msg offset chunk_limit) (back_off_le msg offset chunk_limit) in
    let c = IsCut-back msg offset total_len (back_off msg offset chunk_limit) refl in
    let some_left : leb total_len offset ≡ false = ground arith in
    elim (Bool-cases (leb (total_len - offset) chunk_limit)) [
      | inl short ↦
          rw (some_left, short)
            (IsCut-at_end msg offset total_len h (leb→le (total_len - offset) chunk_limit short))
      | inr long ↦
          let far : ltb (uint64_max - chunk_limit) offset ≡ false = ground arith in
          rw (some_left, long, far) (lo, hi, ground arith, c)
    ]
