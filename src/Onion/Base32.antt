-- ===== src/Onion/Base32.antt =====
-- onion_b32_decode of src/crypto.c reads 56 digits of base 32 as a number, and its output is the same
-- number in base 256.
use noxtor_cli.Prelude.{
  ℕ, zero, suc, ◌+◌, ◌-◌, ◌*◌, ◌/◌, ◌%◌, ◌^◌, ◌≤◌, ◌<◌, ◌≡◌, refl, ap, sym, subst, ◌∙◌, arith, true,
  List, [], ◌∷◌, some, leb, if◌then◌else◌, length, take, map, Bool-cases, inl, inr,
}
use noxtor_cli.Common.{Bytes, Result, ok}
use noxtor_cli.Onion.Address.{
  is_b32, b32_value, cons_byte, shift_in, b32_loop, onion_b32_decode, all_b32,
}

-- The number whose digits follow those of `n`, highest first.
unfoldable pub number : ℕ → ℕ → List ℕ → ℕ
number base n [] = n
number base n (d ∷ ds) = number base (n * base + d) ds

-- The digit of a character.
abbrev pub digit : ℕ → ℕ
digit c = if leb 97 c then c - 97 else c - 24

pub value-digit : (c : ℕ) → is_b32 c ≡ true → (b32_value c ≡ some (digit c)) × (digit c < 32)
value-digit c h = ground arith

-- The low bits of `acc`, with the digits that come in.
low_bits :
    (acc v bits : ℕ) → bits ≤ 7 → v < 32 → shift_in acc v % 2 ^ (bits + 5) ≡ acc % 2 ^ bits * 32 + v
low_bits acc v zero h l = omega arith
low_bits acc v (suc zero) h l = omega arith
low_bits acc v (suc (suc zero)) h l = omega arith
low_bits acc v (suc (suc (suc zero))) h l = omega arith
low_bits acc v (suc (suc (suc (suc zero)))) h l = omega arith
low_bits acc v (suc (suc (suc (suc (suc zero))))) h l = omega arith
low_bits acc v (suc (suc (suc (suc (suc (suc zero)))))) h l = omega arith
low_bits acc v (suc (suc (suc (suc (suc (suc (suc zero))))))) h l = omega arith
low_bits acc v (suc (suc (suc (suc (suc (suc (suc (suc n)))))))) h l = absurd (omega arith)

-- A byte that leaves the top of the bits.
split_byte :
    (n a bits : ℕ)
    → bits ≤ 4
    → (n * 256 + a / 2 ^ bits % 256) * 2 ^ bits + a % 2 ^ bits
      ≡ n * 2 ^ (bits + 8) + a % 2 ^ (bits + 8)
split_byte n a zero h = omega arith
split_byte n a (suc zero) h = omega arith
split_byte n a (suc (suc zero)) h = omega arith
split_byte n a (suc (suc (suc zero))) h = omega arith
split_byte n a (suc (suc (suc (suc zero)))) h = omega arith
split_byte n a (suc (suc (suc (suc (suc k))))) h = absurd (omega arith)

more_bits :
    (n m v bits : ℕ) → bits ≤ 7 → (n * 2 ^ bits + m) * 32 + v ≡ n * 2 ^ (bits + 5) + (m * 32 + v)
more_bits n m v zero h = omega arith
more_bits n m v (suc zero) h = omega arith
more_bits n m v (suc (suc zero)) h = omega arith
more_bits n m v (suc (suc (suc zero))) h = omega arith
more_bits n m v (suc (suc (suc (suc zero)))) h = omega arith
more_bits n m v (suc (suc (suc (suc (suc zero))))) h = omega arith
more_bits n m v (suc (suc (suc (suc (suc (suc zero)))))) h = omega arith
more_bits n m v (suc (suc (suc (suc (suc (suc (suc zero))))))) h = omega arith
more_bits n m v (suc (suc (suc (suc (suc (suc (suc (suc k)))))))) h = absurd (omega arith)

step_keeps :
    (n acc v bits : ℕ)
    → bits ≤ 7
    → v < 32
    → n * 2 ^ (bits + 5) + shift_in acc v % 2 ^ (bits + 5)
      ≡ (n * 2 ^ bits + acc % 2 ^ bits) * 32 + v
step_keeps n acc v bits h l =
    ap (λ x. n * 2 ^ (bits + 5) + x) (low_bits acc v bits h l)
    ∙ sym (more_bits n (acc % 2 ^ bits) v bits h)

step_emits :
    (n acc v bits : ℕ)
    → 3 ≤ bits
    → bits ≤ 7
    → v < 32
    → (n * 256 + shift_in acc v / 2 ^ (bits + 5 - 8) % 256) * 2 ^ (bits + 5 - 8)
        + shift_in acc v % 2 ^ (bits + 5 - 8)
      ≡ (n * 2 ^ bits + acc % 2 ^ bits) * 32 + v
step_emits n acc v bits lo h l =
    let eight : bits + 5 - 8 + 8 ≡ bits + 5 = omega arith in
    split_byte n (shift_in acc v) (bits + 5 - 8) (omega arith)
    ∙ ap (λ k. n * 2 ^ k + shift_in acc v % 2 ^ k) eight
    ∙ step_keeps n acc v bits h l

unfoldable pub AllBytes : Bytes → Type 0
AllBytes [] = Unit {0}
AllBytes (b ∷ bs) = (b < 256) × AllBytes bs

-- The loop gives bytes that end at the 35th, and with what came before they are the number `m`.
record Decoded (n m o : ℕ) (r : Result Bytes) : Type 0 where
  body : Bytes
  result : r ≡ ok body
  ends : length body + o ≡ 35
  same : number 256 n body ≡ m
  bytes : AllBytes body

emitted :
    (n m o b : ℕ) (r : Result Bytes)
    → b < 256
    → Decoded (n * 256 + b) m (o + 1) r
    → Decoded n m o (cons_byte b r)
unfolding number AllBytes
emitted n m o b r l d =
    let e = d.ends in
    record {
      body = b ∷ d.body;
      result = ap (cons_byte b) d.result;
      ends = omega arith;
      same = d.same;
      bytes = (l, d.bytes);
    }

loop-Decoded :
    (cs : Bytes) (n acc bits o : ℕ)
    → all_b32 cs ≡ true
    → bits ≤ 7
    → 5 * length cs + bits + 8 * o ≡ 280
    → Decoded n
        (number 32 (n * 2 ^ bits + acc % 2 ^ bits) (map digit cs))
        o
        (b32_loop cs acc bits o)
unfolding b32_loop all_b32 number AllBytes
loop-Decoded [] n acc bits o h l e =
    let none_left : bits ≡ 0 = omega arith in
    let full : o ≡ 35 = omega arith in
    rw (none_left, full)
      (record { body = []; result = refl; ends = refl; same = omega arith; bytes = tt })
loop-Decoded (c ∷ cs) n acc bits o h l e =
    let (value, small) = value-digit c (ground arith) in
    let rest : all_b32 cs ≡ true = ground arith in
    elim (Bool-cases (leb 8 (bits + 5))) [
      | inl out ↦
          let b = shift_in acc (digit c) / 2 ^ (bits + 5 - 8) % 256 in
          rw (value, out)
            (subst
              (λ m.
                Decoded n (number 32 m (map digit cs)) o
                  (cons_byte b (b32_loop cs (shift_in acc (digit c)) (bits + 5 - 8) (o + 1))))
              (step_emits n acc (digit c) bits (ground arith) l small)
              (emitted n _ o b _ (omega arith) (
                loop-Decoded cs (n * 256 + b) (shift_in acc (digit c)) (bits + 5 - 8) (o + 1) rest
                  (ground arith) (ground arith))))
      | inr in_acc ↦
          rw (value, in_acc)
            (subst
              (λ m.
                Decoded n (number 32 m (map digit cs)) o
                  (b32_loop cs (shift_in acc (digit c)) (bits + 5) o))
              (step_keeps n acc (digit c) bits l small)
              (loop-Decoded cs n (shift_in acc (digit c)) (bits + 5) o rest (ground arith)
                (ground arith)))
    ]

-- The first 56 characters of an address, where all are in the character set, are decoded without
-- an error to 35 bytes below 256, and these are in base 256 the number that the characters are in
-- base 32, although the accumulator of 32 bits overflows.
pub decode_value :
    (addr : Bytes)
    → length (take 56 addr) ≡ 56
    → all_b32 (take 56 addr) ≡ true
    → (body : Bytes) × (onion_b32_decode addr ≡ ok body)
      × (length body ≡ 35)
      × AllBytes body
      × (number 256 0 body ≡ number 32 0 (map digit (take 56 addr)))
unfolding onion_b32_decode
decode_value addr l h =
    let d = loop-Decoded (take 56 addr) 0 0 0 0 h (omega arith) (omega arith) in
    let e = d.ends in (d.body, d.result, (omega arith), d.bytes, d.same)
