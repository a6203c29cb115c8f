-- ===== src/File/Name.antt =====
-- sanitize_filename of src/file_transfer.c. A name is the bytes before its NUL.
use noxtor_cli.Prelude.{
  ℕ, ◌+◌, ◌-◌, ◌/◌, ◌%◌, ◌^◌, Bool, ◌&&◌, ◌||◌, [], ◌∷◌, map, leb, ltb, ◌==◌, if◌then◌else◌, take,
}
use noxtor_cli.Common.{Bytes}

abbrev pub slash : ℕ
slash = 47

abbrev pub dot : ℕ
dot = 46

abbrev pub underscore : ℕ
underscore = 95

-- strrchr and the copy behind it: what follows the last '/', or all of the name.
unfoldable pub base_name : Bytes → Bytes → Bytes
base_name found [] = found
base_name found (c ∷ cs) = base_name (if c == slash then cs else found) cs

abbrev pub between : ℕ → ℕ → ℕ → Bool
between lo c hi = leb lo c && leb c hi

-- a-z, A-Z, 0-9, '.', '_' and '-'
unfoldable pub allowed : ℕ → Bool
allowed c =
    between 97 c 122 || between 65 c 90 || between 48 c 57 || c == dot || c == underscore || c == 45

abbrev pub filter_char : ℕ → ℕ
filter_char c = if allowed c then c else underscore

abbrev pub dots : ℕ → ℕ → Bool
dots a b = a == dot && b == dot

-- The loop over pairs of neighbours, `a` being the character at i as the rounds before left it.
unfoldable pub undot_from : ℕ → Bytes → Bytes
undot_from a [] = a ∷ []
undot_from a (b ∷ bs) =
    (if dots a b then underscore else a) ∷ undot_from (if dots a b then underscore else b) bs

abbrev pub undot : Bytes → Bytes
undot [] = []
undot (c ∷ cs) = undot_from c cs

abbrev pub visible : Bytes → Bytes
visible [] = []
visible (c ∷ cs) = (if c == dot then underscore else c) ∷ cs

abbrev pub hex_digit : ℕ → ℕ
hex_digit d = if ltb d 10 then 48 + d else 87 + d

-- "file_%08x" of a uint32_t
abbrev pub generated : ℕ → Bytes
generated rnd =
    102
    ∷ 105
    ∷ 108
    ∷ 101
    ∷ underscore
    ∷ map (λ i. hex_digit (rnd / 16 ^ i % 16)) (7 ∷ 6 ∷ 5 ∷ 4 ∷ 3 ∷ 2 ∷ 1 ∷ 0 ∷ [])

abbrev pub or_generated : ℕ → ℕ → Bytes → Bytes
or_generated max_len rnd [] = take (max_len - 1) (generated rnd)
or_generated max_len rnd (c ∷ cs) = c ∷ cs

-- `rnd` is the value of randombytes_random.
unfoldable pub sanitize_filename : Bytes → ℕ → ℕ → Bytes
sanitize_filename name max_len rnd =
    if max_len == 0
    then name
    else or_generated max_len rnd
        (visible (undot (map filter_char (take (max_len - 1) (base_name name name)))))
