-- ===== src/Onion/Unique.antt =====
-- crypto_onion_pubkey of src/crypto.c: what it accepts, and that a key has one address.
use noxtor_cli.Prelude.{
  ℕ, zero, suc, ◌+◌, ◌*◌, ◌≡◌, refl, ap, sym, ◌∙◌, arith, true, [], ◌∷◌, ◌++◌, Option, none, some,
  ◌==◌, length, take, drop, get_or, map, take-append-drop, length-take, length-drop, Bool-cases,
  inl, inr,
}
use noxtor_cli.Common.{Bytes, Err, Result, ok, err, bytes_eq, bytes_eq-eq}
use noxtor_cli.Onion.Address.{
  Ed25519, all_b32, suffix, checksum_ctx, onion_b32_decode, check_digest, check_body,
  crypto_onion_pubkey,
}
use noxtor_cli.Onion.Base32.{number, digit, value-digit, decode_value}

-- What an accepted address consists of: 56 characters of base 32 and ".onion", and a body with the
-- key, two bytes of the key's checksum and the version 3.
pub record IsOnion (E : Ed25519) (addr pub_key : Bytes) : Type 0 where
  pub body : Bytes
  pub digest : Bytes
  pub long : length addr ≡ 62
  pub suffixed : drop 56 addr ≡ suffix
  pub charset : all_b32 (take 56 addr) ≡ true
  pub decoded : onion_b32_decode addr ≡ ok body
  pub key : pub_key ≡ take 32 body
  pub hashed : E.sha3_256 (checksum_ctx ++ (take 32 body ++ 3 ∷ [])) ≡ some digest
  pub checked : take 2 digest ≡ take 2 (drop 32 body)
  pub version : get_or body 34 0 ≡ 3

from_ok : Bytes → Result Bytes → Bytes
from_ok d (ok b) = b
from_ok d (err e) = d

-- No result is both.
pub err-ok : (x : Err) (b : Bytes) → err x ≡ ok b → ⊥
err-ok x b h = ground arith

eq_of : (a b : ℕ) → (a == b) ≡ true → a ≡ b
eq_of a b h = ground arith

pub ok_inj : (a b : Bytes) → ok a ≡ ok b → a ≡ b
unfolding from_ok
ok_inj a b h = ap (from_ok a) h

module _ (E : Ed25519) (addr pk : Bytes) (long : length addr ≡ 62)
    (suffixed : drop 56 addr ≡ suffix) (charset : all_b32 (take 56 addr) ≡ true) where
  digest-IsOnion :
      (body : Bytes) (o : Option Bytes)
      → onion_b32_decode addr ≡ ok body
      → E.sha3_256 (checksum_ctx ++ (take 32 body ++ 3 ∷ [])) ≡ o
      → get_or body 34 0 ≡ 3
      → check_digest body o ≡ ok pk
      → IsOnion E addr pk
  digest-IsOnion body none d h v e = absurd (err-ok Err.crypto pk e)
  digest-IsOnion body (some digest) d h v e =
      elim (Bool-cases (bytes_eq (take 2 digest) (take 2 (drop 32 body)))) [
        | inl same ↦ record {
          body = body;
          digest = digest;
          long = long;
          suffixed = suffixed;
          charset = charset;
          decoded = d;
          key = ok_inj pk (take 32 body) (sym e ∙ simp same refl);
          hashed = h;
          checked = bytes_eq-eq _ _ same;
          version = v;
        }
        | inr other ↦ absurd (err-ok Err.proto pk (simp other refl ∙ e))
      ]

  body-IsOnion :
      (r : Result Bytes) → onion_b32_decode addr ≡ r → check_body E r ≡ ok pk → IsOnion E addr pk
  body-IsOnion (err x) d e = absurd (err-ok Err.crypto pk e)
  body-IsOnion (ok body) d e = elim (Bool-cases (get_or body 34 0 == 3)) [
    | inl v ↦
        digest-IsOnion body (E.sha3_256 (checksum_ctx ++ (take 32 body ++ 3 ∷ []))) d refl
          (eq_of (get_or body 34 0) 3 v) (simp v refl ∙ e)
    | inr bad ↦ absurd (err-ok Err.proto pk (simp bad refl ∙ e))
  ]

pub pubkey-IsOnion :
    (E : Ed25519) (addr pk : Bytes) → crypto_onion_pubkey E addr ≡ ok pk → IsOnion E addr pk
unfolding crypto_onion_pubkey
pubkey-IsOnion E addr pk e = elim (Bool-cases (length addr == 62)) [
  | inr bad ↦ absurd (err-ok Err.proto pk (simp bad refl ∙ e))
  | inl long ↦ elim (Bool-cases (bytes_eq (drop 56 addr) suffix)) [
    | inr bad ↦ absurd (err-ok Err.proto pk (simp (long, bad) refl ∙ e))
    | inl suffixed ↦ elim (Bool-cases (all_b32 (take 56 addr))) [
      | inr bad ↦ absurd (err-ok Err.proto pk (simp (long, suffixed, bad) refl ∙ e))
      | inl charset ↦
          body-IsOnion E addr pk (eq_of (length addr) 62 long) (bytes_eq-eq _ _ suffixed) charset
            (onion_b32_decode addr) refl (simp (long, suffixed, charset) refl ∙ e)
    ]
  ]
]

-- Equal numbers with equally many digits have equal digits.
digits_equal :
    (n m : ℕ) (xs ys : Bytes)
    → all_b32 xs ≡ true
    → all_b32 ys ≡ true
    → length xs ≡ length ys
    → number 32 n (map digit xs) ≡ number 32 m (map digit ys)
    → (n ≡ m) × (xs ≡ ys)
unfolding number all_b32
digits_equal n m [] [] a b l e = (e, refl)
digits_equal n m [] (y ∷ ys) a b l e = absurd (omega arith)
digits_equal n m (x ∷ xs) [] a b l e = absurd (omega arith)
digits_equal n m (x ∷ xs) (y ∷ ys) a b l e =
    let vx = (value-digit x (ground arith)).1 in
    let vy = (value-digit y (ground arith)).1 in
    let (same, rest) =
      digits_equal (n * 32 + digit x) (m * 32 + digit y) xs ys (ground arith) (ground arith)
        (omega arith) e in
    let first : digit x ≡ digit y = omega arith in
    let char : x ≡ y = ground arith in (omega arith, ap (λ c. c ∷ xs) char ∙ ap (λ cs. y ∷ cs) rest)

-- A list of 35 bytes by its parts.
parts :
    (body : Bytes)
    → length body ≡ 35
    → body ≡ take 32 body ++ (take 2 (drop 32 body) ++ get_or body 34 0 ∷ [])
parts body l =
    sym (take-append-drop 32 body)
    ∙ ap (λ t. take 32 body ++ t)
        (tail (drop 32 body) (let d = length-drop 32 body in omega arith)
          ∙ ap (λ v. take 2 (drop 32 body) ++ v ∷ []) (at body l))
  where
    tail : (t : Bytes) → length t ≡ 3 → t ≡ take 2 t ++ get_or t 2 0 ∷ []
    tail (a ∷ b ∷ c ∷ []) h = refl
    tail (a ∷ b ∷ c ∷ d ∷ t) h = absurd (omega arith)
    tail (a ∷ b ∷ []) h = absurd (omega arith)
    tail (a ∷ []) h = absurd (omega arith)
    tail [] h = absurd (omega arith)

    at_drop : (n : ℕ) (xs : Bytes) → get_or (drop n xs) 2 0 ≡ get_or xs (n + 2) 0
    at_drop zero xs = refl
    at_drop (suc n) [] = refl
    at_drop (suc n) (x ∷ xs) =
        let up : suc (n + 2) ≡ suc n + 2 = omega arith in
        at_drop n xs ∙ ap (λ k. get_or (x ∷ xs) k 0) up

    at : (xs : Bytes) → length xs ≡ 35 → get_or (drop 32 xs) 2 0 ≡ get_or xs 34 0
    at xs h = at_drop 32 xs

get_some : Bytes → Option Bytes → Bytes
get_some d none = d
get_some d (some b) = b

some_inj : (a b : Bytes) → some a ≡ some b → a ≡ b
unfolding get_some
some_inj a b h = ap (get_some a) h

-- The whole body follows from the key.
body_of :
    (E : Ed25519) (a b pk : Bytes) (u : IsOnion E a pk) (v : IsOnion E b pk)
    → length u.body ≡ 35
    → length v.body ≡ 35
    → u.body ≡ v.body
body_of E a b pk u v l m =
    let keys : take 32 u.body ≡ take 32 v.body = sym u.key ∙ v.key in
    let digests : u.digest ≡ v.digest =
      some_inj u.digest v.digest
        (sym u.hashed ∙ ap (λ k. E.sha3_256 (checksum_ctx ++ (k ++ 3 ∷ []))) keys ∙ v.hashed) in
    let sums : take 2 (drop 32 u.body) ≡ take 2 (drop 32 v.body) =
      sym u.checked ∙ ap (take 2) digests ∙ v.checked in
    let versions : get_or u.body 34 0 ≡ get_or v.body 34 0 = u.version ∙ sym v.version in
    parts u.body l
    ∙ ap (λ k. k ++ (take 2 (drop 32 u.body) ++ get_or u.body 34 0 ∷ [])) keys
    ∙ ap (λ c. take 32 v.body ++ (c ++ get_or u.body 34 0 ∷ [])) sums
    ∙ ap (λ n. take 32 v.body ++ (take 2 (drop 32 v.body) ++ n ∷ [])) versions
    ∙ sym (parts v.body m)

front : (addr : Bytes) → length addr ≡ 62 → length (take 56 addr) ≡ 56
front addr l = let t = length-take 56 addr in omega arith

-- Two addresses from which the code takes one public key are one address.
pub address_unique :
    (E : Ed25519) (a b pk : Bytes)
    → crypto_onion_pubkey E a ≡ ok pk
    → crypto_onion_pubkey E b ≡ ok pk
    → a ≡ b
address_unique E a b pk x y =
    let u = pubkey-IsOnion E a pk x in
    let v = pubkey-IsOnion E b pk y in
    let (body, d, l, bytes, n) = decode_value a (front a u.long) u.charset in
    let (other, e, m, bytes', k) = decode_value b (front b v.long) v.charset in
    let here : u.body ≡ body = ok_inj u.body body (sym u.decoded ∙ d) in
    let there : v.body ≡ other = ok_inj v.body other (sym v.decoded ∙ e) in
    let same : body ≡ other =
      sym here ∙ body_of E a b pk u v (ap length here ∙ l) (ap length there ∙ m) ∙ there in
    let digits =
      (digits_equal 0 0 (take 56 a) (take 56 b) u.charset v.charset
        (front a u.long ∙ sym (front b v.long)) (sym n ∙ ap (number 256 0) same ∙ k)).1 in
    sym (take-append-drop 56 a)
    ∙ ap (λ t. t ++ drop 56 a) digits
    ∙ ap (λ t. take 56 b ++ t) (u.suffixed ∙ sym v.suffixed)
    ∙ take-append-drop 56 b
