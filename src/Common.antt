-- ===== src/Common.antt =====
-- The definitions that every component shares: error codes, the constants of the source, byte
-- strings and the results of fallible calls (include/common.h, include/noise.h, include/types.h).
use noxtor_cli.Prelude.{
  ℕ, zero, suc, ◌≡◌, refl, Bool, true, false, ◌&&◌, List, [], ◌∷◌, arith, ◌==◌, replicate,
  if◌then◌else◌,
}

-- nox_err_t without NOX_OK, which is `ok` of `Result`.
pub data Err : Type 0 where
  alloc crypto io proto auth locked pin config tor net db overflow state not_found : Err
  landlock_unsupported : Err

pub data Result {ℓ} (A : Type ℓ) : Type ℓ where
  ok : A → Result A
  err : Err → Result A

-- A byte string; every element is below 256 where a theorem needs it.
abbrev pub Bytes : Type 0
Bytes = List ℕ

abbrev pub key_len : ℕ
key_len = 32

abbrev pub mac_len : ℕ
mac_len = 16

abbrev pub max_msg_len : ℕ
max_msg_len = 4096

abbrev pub hash_len : ℕ
hash_len = 64

abbrev pub max_handshake_len : ℕ
max_handshake_len = 256

-- NOISE_MAX_PAYLOAD_LEN
abbrev pub max_payload_len : ℕ
max_payload_len = 4112

abbrev pub uint64_max : ℕ
uint64_max = 18446744073709551615

abbrev pub u64_mod : ℕ
u64_mod = 18446744073709551616

abbrev pub u32_mod : ℕ
u32_mod = 4294967296

-- sodium_memzero of a buffer of n bytes.
abbrev pub zeros : ℕ → Bytes
zeros n = replicate n 0

-- sodium_is_zero
unfoldable pub is_zero : Bytes → Bool
is_zero [] = true
is_zero (b ∷ bs) = b == 0 && is_zero bs

-- memcmp and sodium_memcmp of two buffers of one length: equal or not.
unfoldable pub bytes_eq : Bytes → Bytes → Bool
bytes_eq [] [] = true
bytes_eq [] (y ∷ ys) = false
bytes_eq (x ∷ xs) [] = false
bytes_eq (x ∷ xs) (y ∷ ys) = x == y && bytes_eq xs ys

pub bytes_eq-eq : (xs ys : Bytes) → bytes_eq xs ys ≡ true → xs ≡ ys
unfolding bytes_eq
bytes_eq-eq [] [] h = refl
bytes_eq-eq [] (y ∷ ys) h = ground arith
bytes_eq-eq (x ∷ xs) [] h = ground arith
bytes_eq-eq (x ∷ xs) (y ∷ ys) h = ground (arith, bytes_eq-eq xs ys)

pub bytes_eq_refl : (xs : Bytes) → bytes_eq xs xs ≡ true
unfolding bytes_eq
bytes_eq_refl [] = refl
bytes_eq_refl (x ∷ xs) = ground (arith, bytes_eq_refl xs)

-- The bytes of a C string in a field of n bytes.
abbrev pub c_string : ℕ → Bytes → Bytes
c_string zero b = []
c_string (suc n) [] = []
c_string (suc n) (c ∷ cs) = if c == 0 then [] else c ∷ c_string n cs
