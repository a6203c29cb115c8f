-- ===== src/File/SafeName.antt =====
-- What sanitize_filename of src/file_transfer.c makes of a name that comes from the peer.
use noxtor_cli.Prelude.{
  ℕ, zero, suc, ◌-◌, ◌/◌, ◌%◌, ◌^◌, ◌≤◌, ◌<◌, ◌≡◌, refl, ap, arith, length, length-map, length-take,
  true, false, List, [], ◌∷◌, map, ◌==◌, if◌then◌else◌, take, Bool-cases, inl, inr,
}
use noxtor_cli.Common.{Bytes}
use noxtor_cli.File.Name.{
  dot, underscore, base_name, allowed, filter_char, dots, undot_from, undot, visible, hex_digit,
  generated, or_generated, sanitize_filename,
}

-- Every character is a letter, a digit, '.', '_' or '-'; so there is no '/' among them.
unfoldable pub AllAllowed : Bytes → Type 0
AllAllowed [] = Unit {0}
AllAllowed (c ∷ cs) = (allowed c ≡ true) × AllAllowed cs

-- No two dots stand side by side.
unfoldable pub NoDots : Bytes → Type 0
NoDots [] = Unit {0}
NoDots (a ∷ []) = Unit {0}
NoDots (a ∷ b ∷ cs) = (dots a b ≡ false) × NoDots (b ∷ cs)

-- A name that is not empty and does not start with a dot.
unfoldable pub Starts : Bytes → Type 0
Starts [] = ⊥
Starts (c ∷ cs) = (c == dot) ≡ false

-- A name that stands for a new, visible file in the directory itself.
pub record IsSafe (max_len : ℕ) (name : Bytes) : Type 0 where
  pub characters : AllAllowed name
  pub no_parent : NoDots name
  pub visible_name : Starts name
  pub fits : length name < max_len

allowed-underscore : allowed underscore ≡ true
unfolding allowed
allowed-underscore = refl

filter-allowed : (c : ℕ) → allowed (filter_char c) ≡ true
filter-allowed c = elim (Bool-cases (allowed c)) [
  | inl y ↦ rw y y
  | inr n ↦ rw n allowed-underscore
]

map_allowed : (cs : Bytes) → AllAllowed (map filter_char cs)
unfolding AllAllowed
map_allowed [] = tt
map_allowed (c ∷ cs) = (filter-allowed c, map_allowed cs)

undot-AllAllowed :
    (a : ℕ) (cs : Bytes) → allowed a ≡ true → AllAllowed cs → AllAllowed (undot_from a cs)
unfolding AllAllowed undot_from
undot-AllAllowed a [] h t = (h, tt)
undot-AllAllowed a (b ∷ bs) h (k, t) = elim (Bool-cases (dots a b)) [
  | inl y ↦ rw y (allowed-underscore, undot-AllAllowed underscore bs allowed-underscore t)
  | inr n ↦ rw n (h, undot-AllAllowed b bs k t)
]

after_dots :
    (a b : ℕ)
    → dots (if dots a b then underscore else a) (if dots a b then underscore else b) ≡ false
after_dots a b = elim (Bool-cases (dots a b)) [ inl y ↦ rw y refl | inr n ↦ rw (n, n) refl ]

before_dots : (x a b : ℕ) → dots x a ≡ false → dots x (if dots a b then underscore else a) ≡ false
before_dots x a b h = elim (Bool-cases (dots a b)) [ inl y ↦ ground arith | inr n ↦ rw n h ]

pair-NoDots : (x a : ℕ) (cs : Bytes) → dots x a ≡ false → NoDots (x ∷ undot_from a cs)
unfolding NoDots undot_from
pair-NoDots x a [] h = (h, tt)
pair-NoDots x a (b ∷ bs) h = (
  before_dots x a b h,
  pair-NoDots (if dots a b then underscore else a) (if dots a b then underscore else b) bs
      (after_dots a b),
)

undot-NoDots : (cs : Bytes) → NoDots (undot cs)
unfolding NoDots undot_from
undot-NoDots [] = tt
undot-NoDots (a ∷ []) = tt
undot-NoDots (a ∷ b ∷ bs) = pair-NoDots _ _ bs (after_dots a b)

length-undot_from : (cs : Bytes) (a : ℕ) → length (undot_from a cs) ≡ suc (length cs)
unfolding undot_from
length-undot_from [] a = refl
length-undot_from (b ∷ bs) a = ap suc (length-undot_from bs (if dots a b then underscore else b))

length-undot : (cs : Bytes) → length (undot cs) ≡ length cs
length-undot [] = refl
length-undot (c ∷ cs) = length-undot_from cs c

undot-allowed : (cs : Bytes) → AllAllowed cs → AllAllowed (undot cs)
unfolding AllAllowed
undot-allowed [] h = tt
undot-allowed (c ∷ cs) (h, t) = undot-AllAllowed c cs h t

visible_start : (c : ℕ) → ((if c == dot then underscore else c) == dot) ≡ false
visible_start c = ground arith

shown-allowed : (d : ℕ) → allowed d ≡ true → allowed (if d == dot then underscore else d) ≡ true
shown-allowed d k = elim (Bool-cases (d == dot)) [
  | inl y ↦ rw y allowed-underscore
  | inr n ↦ rw n k
]

shown-NoDots : (d : ℕ) (ds : Bytes) → NoDots (d ∷ ds) → NoDots (visible (d ∷ ds))
unfolding NoDots
shown-NoDots d [] k = tt
shown-NoDots d (e ∷ es) (k, t) = (ground arith, t)

-- Hiding the first dot keeps what the other steps have reached.
visible-IsSafe :
    (max_len : ℕ) (c : ℕ) (cs : Bytes)
    → AllAllowed (c ∷ cs)
    → NoDots (c ∷ cs)
    → length (c ∷ cs) < max_len
    → IsSafe max_len (visible (c ∷ cs))
unfolding AllAllowed Starts
visible-IsSafe max_len c cs (h, t) n l = record {
  characters = (shown-allowed c h, t);
  no_parent = shown-NoDots c cs n;
  visible_name = visible_start c;
  fits = l;
}

abbrev AllPlain : Bytes → Type 0
AllPlain [] = Unit {0}
AllPlain (c ∷ cs) = (allowed c ≡ true) × ((c == dot) ≡ false) × AllPlain cs

plain-allowed : (cs : Bytes) → AllPlain cs → AllAllowed cs
unfolding AllAllowed
plain-allowed [] h = tt
plain-allowed (c ∷ cs) (h, n, t) = (h, plain-allowed cs t)

plain-NoDots : (cs : Bytes) → AllPlain cs → NoDots cs
unfolding NoDots
plain-NoDots [] h = tt
plain-NoDots (c ∷ []) h = tt
plain-NoDots (c ∷ d ∷ cs) (h, n, t) = (rw n refl, plain-NoDots (d ∷ cs) t)

plain-take : (n : ℕ) (cs : Bytes) → AllPlain cs → AllPlain (take n cs)
plain-take zero cs h = tt
plain-take (suc n) [] h = tt
plain-take (suc n) (c ∷ cs) (h, k, t) = (h, k, plain-take n cs t)

hex_plain : (d : ℕ) → d < 16 → (allowed (hex_digit d) ≡ true) × ((hex_digit d == dot) ≡ false)
unfolding allowed
hex_plain d h = ground arith

hex_digits : (rnd : ℕ) (ns : List ℕ) → AllPlain (map (λ i. hex_digit (rnd / 16 ^ i % 16)) ns)
hex_digits rnd [] = tt
hex_digits rnd (i ∷ ns) =
    let (a, b) = hex_plain (rnd / 16 ^ i % 16) (omega arith) in (a, b, hex_digits rnd ns)

generated_plain : (rnd : ℕ) → AllPlain (generated rnd)
unfolding allowed
generated_plain rnd = (
  refl,
  refl,
  (
    refl,
    refl,
    (refl, refl, (refl, refl, (refl, refl, hex_digits rnd (7 ∷ 6 ∷ 5 ∷ 4 ∷ 3 ∷ 2 ∷ 1 ∷ 0 ∷ [])))),
  ),
)

generated-IsSafe :
    (max_len : ℕ) (c : ℕ) (cs : Bytes)
    → 2 ≤ max_len
    → AllPlain (c ∷ cs)
    → IsSafe max_len (take (max_len - 1) (c ∷ cs))
unfolding Starts
generated-IsSafe zero c cs m h = absurd (omega arith)
generated-IsSafe (suc zero) c cs m h = absurd (omega arith)
generated-IsSafe (suc (suc k)) c cs m (h, n, t) =
    let e : suc (suc k) - 1 ≡ suc k = omega arith in
    let l = length-take k cs in
    rw e (record {
      characters = plain-allowed (c ∷ take k cs) (h, n, plain-take k cs t);
      no_parent = plain-NoDots (c ∷ take k cs) (h, n, plain-take k cs t);
      visible_name = n;
      fits = omega arith;
    })

or_generated-IsSafe :
    (max_len rnd : ℕ) (cs : Bytes)
    → 2 ≤ max_len
    → AllAllowed cs
    → NoDots cs
    → length cs < max_len
    → IsSafe max_len (or_generated max_len rnd (visible cs))
or_generated-IsSafe max_len rnd [] m h n l = generated-IsSafe max_len _ _ m (generated_plain rnd)
or_generated-IsSafe max_len rnd (c ∷ cs) m h n l = visible-IsSafe max_len c cs h n l

-- Whatever name the peer sends, if the buffer has room for one character, the name that is used
-- is not empty, fits the buffer, has letters, digits, ".", "_" and "-" only, has no "..", and
-- does not start with a dot.
pub sanitize-IsSafe :
    (name : Bytes) (max_len rnd : ℕ)
    → 2 ≤ max_len
    → IsSafe max_len (sanitize_filename name max_len rnd)
unfolding sanitize_filename
sanitize-IsSafe name max_len rnd m =
    let cs = map filter_char (take (max_len - 1) (base_name name name)) in
    let some_room : (max_len == 0) ≡ false = ground arith in
    let l : length cs < max_len =
      rw
        (
          length-map (take (max_len - 1) (base_name name name)) filter_char,
          length-take (max_len - 1) (base_name name name),
        )
        (omega arith) in
    rw some_room (
      or_generated-IsSafe max_len rnd (undot cs) m (undot-allowed cs (map_allowed _))
        (undot-NoDots cs) (rw (length-undot cs) l))
