-- ===== src/Onion/Address.antt =====
-- onion_b32_decode, crypto_onion_pubkey (src/crypto.c) and validate_onion_address
-- (src/network.c). An address is its text without the NUL.
use noxtor_cli.Prelude.{
  ℕ, ◌+◌, ◌-◌, ◌*◌, ◌/◌, ◌%◌, ◌^◌, Bool, true, false, not, ◌||◌, ◌&&◌, [], ◌∷◌, ◌++◌, Option, none,
  some, leb, ◌==◌, if◌then◌else◌, length, take, drop, get_or,
}
use noxtor_cli.Common.{Bytes, Err, Result, ok, err, u32_mod, bytes_eq}

-- What the addresses use of libsodium: crypto_hash_sha3256, the key pair of
-- crypto_sign_seed_keypair (public and private), crypto_sign_detached of a message under a private
-- key, and crypto_sign_verify_detached of a signature, a message and a public key.
pub record Ed25519 : Type 0 where
  pub sha3_256 : Bytes → Option Bytes
  pub seed_keypair : Bytes → Option (Bytes × Bytes)
  pub sign_detached : Bytes → Bytes → Option Bytes
  pub verify_detached : Bytes → Bytes → Bytes → Bool

-- 'a' to 'z' and '2' to '7'
abbrev pub is_b32 : ℕ → Bool
is_b32 c = (leb 97 c && leb c 122) || (leb 50 c && leb c 55)

abbrev pub b32_value : ℕ → Option ℕ
b32_value c =
    if leb 97 c && leb c 122
    then some (c - 97)
    else if leb 50 c && leb c 55
    then some (26 + (c - 50))
    else none

abbrev pub cons_byte : ℕ → Result Bytes → Result Bytes
cons_byte b (ok bs) = ok (b ∷ bs)
cons_byte b (err e) = err e

-- `acc << 5 | v` of a uint32_t: the lowest five bits are free after the shift.
abbrev pub shift_in : ℕ → ℕ → ℕ
shift_in acc v = acc * 32 % u32_mod + v

-- The digit `v` with the loop after it, which takes `acc`, `bits` and `o`.
abbrev pub on_digit : ℕ → ℕ → ℕ → Option ℕ → (ℕ → ℕ → ℕ → Result Bytes) → Result Bytes
on_digit acc bits o none next = err Err.crypto
on_digit acc bits o (some v) next =
    if leb 8 (bits + 5)
    then cons_byte (shift_in acc v / 2 ^ (bits + 5 - 8) % 256)
        (next (shift_in acc v) (bits + 5 - 8) (o + 1))
    else next (shift_in acc v) (bits + 5) o

unfoldable pub b32_loop : Bytes → ℕ → ℕ → ℕ → Result Bytes
b32_loop [] acc bits o = if not (bits == 0) || not (o == 35) then err Err.crypto else ok []
b32_loop (c ∷ cs) acc bits o =
    on_digit acc bits o (b32_value c) (λ acc' bits' o'. b32_loop cs acc' bits' o')

unfoldable pub onion_b32_decode : Bytes → Result Bytes
onion_b32_decode addr = b32_loop (take 56 addr) 0 0 0

-- ".onion"
abbrev pub suffix : Bytes
suffix = 46 ∷ 111 ∷ 110 ∷ 105 ∷ 111 ∷ 110 ∷ []

-- ".onion checksum"
abbrev pub checksum_ctx : Bytes
checksum_ctx = suffix ++ 32 ∷ 99 ∷ 104 ∷ 101 ∷ 99 ∷ 107 ∷ 115 ∷ 117 ∷ 109 ∷ []

unfoldable pub all_b32 : Bytes → Bool
all_b32 [] = true
all_b32 (c ∷ cs) = is_b32 c && all_b32 cs

abbrev pub check_digest : Bytes → Option Bytes → Result Bytes
check_digest body none = err Err.crypto
check_digest body (some digest) =
    if not (bytes_eq (take 2 digest) (take 2 (drop 32 body)))
    then err Err.proto
    else ok (take 32 body)

abbrev pub check_body : Ed25519 → Result Bytes → Result Bytes
check_body E (err e) = err Err.crypto
check_body E (ok body) =
    if not (get_or body 34 0 == 3)
    then err Err.proto
    else check_digest body (E.sha3_256 (checksum_ctx ++ (take 32 body ++ 3 ∷ [])))

unfoldable pub crypto_onion_pubkey : Ed25519 → Bytes → Result Bytes
crypto_onion_pubkey E addr =
    if not (length addr == 62)
    then err Err.proto
    else if not (bytes_eq (drop 56 addr) suffix)
    then err Err.proto
    else if not (all_b32 (take 56 addr))
    then err Err.proto
    else check_body E (onion_b32_decode addr)

abbrev pub is_ok : Result Bytes → Bool
is_ok (ok b) = true
is_ok (err e) = false

unfoldable pub validate_onion_address : Ed25519 → Bytes → Bool
validate_onion_address E addr = is_ok (crypto_onion_pubkey E addr)
