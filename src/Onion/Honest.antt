-- ===== src/Onion/Honest.antt =====
-- hs_build_claim_payload against the checks of the other end (src/event_loop.c).
use noxtor_cli.Prelude.{
  ℕ, suc, ◌≡◌, refl, ap, sym, subst, ◌∙◌, ◌⊎◌, arith, true, false, not, ◌&&◌, [], ◌∷◌, ◌++◌, some,
  ◌==◌, if◌then◌else◌, length, take, drop, take_all, take-append-drop, length-append, Bool-cases,
  inl, inr,
}
use noxtor_cli.Common.{Bytes, Err, Result, ok, err, bytes_eq, bytes_eq_refl, c_string}
use noxtor_cli.Onion.Address.{Ed25519, all_b32, suffix, crypto_onion_pubkey, validate_onion_address}
use noxtor_cli.Onion.Unique.{IsOnion, pubkey-IsOnion}
use noxtor_cli.Onion.Claim.{
  onion_bind_msg, crypto_onion_sign, crypto_onion_verify, Identity, hs_build_claim_payload,
  check_claim,
}

-- The documented behaviour of libsodium's signatures: they verify, and have 64 bytes. Nothing is
-- said of their strength.
pub record Ed25519Laws (E : Ed25519) : Type 0 where
  pub verify_sign :
      (seed pk sk msg sig : Bytes)
      → E.seed_keypair seed ≡ some (pk, sk)
      → E.sign_detached msg sk ≡ some sig
      → E.verify_detached sig msg pk ≡ true
  pub sign_total : (msg sk : Bytes) → (sig : Bytes) × (E.sign_detached msg sk ≡ some sig)
  pub sign_length : (msg sk sig : Bytes) → E.sign_detached msg sk ≡ some sig → length sig ≡ 64

unfoldable pub NoNul : Bytes → Type 0
NoNul [] = Unit {0}
NoNul (c ∷ cs) = ((c == 0) ≡ false) × NoNul cs

pub c_string-NoNul : (xs ys : Bytes) → NoNul xs → c_string (length xs) (xs ++ ys) ≡ xs
unfolding NoNul
c_string-NoNul [] ys h = refl
c_string-NoNul (x ∷ xs) ys (n, h) = rw n (ap (λ cs. x ∷ cs) (c_string-NoNul xs ys h))

append-NoNul : (xs ys : Bytes) → NoNul xs → NoNul ys → NoNul (xs ++ ys)
unfolding NoNul
append-NoNul [] ys h k = k
append-NoNul (x ∷ xs) ys (n, h) k = (n, append-NoNul xs ys h k)

b32-NoNul : (cs : Bytes) → all_b32 cs ≡ true → NoNul cs
unfolding NoNul all_b32
b32-NoNul [] h = tt
b32-NoNul (c ∷ cs) h = (ground arith, b32-NoNul cs (ground arith))

suffix-NoNul : NoNul suffix
unfolding NoNul
suffix-NoNul = (refl, (refl, (refl, (refl, (refl, (refl, tt))))))

onion-NoNul : (E : Ed25519) (addr pk : Bytes) → IsOnion E addr pk → NoNul addr
onion-NoNul E addr pk v = subst NoNul (take-append-drop 56 addr) (
    append-NoNul (take 56 addr) (drop 56 addr) (b32-NoNul (take 56 addr) v.charset)
      (subst NoNul (sym v.suffixed) suffix-NoNul))

take_whole : (n : ℕ) (xs : Bytes) → length xs ≡ n → take n xs ≡ xs
take_whole n xs l = subst (λ m. take m xs ≡ xs) l (take_all xs)

drop_front : (xs ys : Bytes) → drop (length xs) (xs ++ ys) ≡ ys
drop_front [] ys = refl
drop_front (x ∷ xs) ys = drop_front xs ys

module _ (E : Ed25519) (L : Ed25519Laws E) (addr static_pub seed pk sk target : Bytes)
    (keys : E.seed_keypair seed ≡ some (pk, sk)) (address : crypto_onion_pubkey E addr ≡ ok pk)
    (dialled : (target ≡ []) ⊎ (target ≡ addr)) where
  abbrev me : Identity
  me = record { onion_seed = some seed; static_pub = some static_pub; onion_addr = addr }

  abbrev passes : Bytes → Result Bytes
  passes o = if not (length target == 0) && not (bytes_eq o target) then err Err.auth else ok o

  target_passes : passes addr ≡ ok addr
  target_passes = elim dialled [
    | inl empty ↦ rw empty refl
    | inr same ↦
        rw (same, bytes_eq_refl addr)
          (elim (Bool-cases (length addr == 0)) [ inl z ↦ rw z refl | inr z ↦ rw z refl ])
  ]

  built :
      (sig : Bytes)
      → E.sign_detached (onion_bind_msg addr static_pub) sk ≡ some sig
      → hs_build_claim_payload E me ≡ ok (1 ∷ addr ++ sig)
  unfolding hs_build_claim_payload crypto_onion_sign
  built sig made =
      let l = (pubkey-IsOnion E addr pk address).long in
      let long : (length addr == 62) ≡ true = rw l refl in
      simp (long, keys, made) (ap (λ a. ok (1 ∷ a ++ sig)) (take_whole 62 addr l))

  check_ok :
      (sig : Bytes)
      → E.sign_detached (onion_bind_msg addr static_pub) sk ≡ some sig
      → check_claim E (1 ∷ addr ++ sig) static_pub target ≡ ok addr
  unfolding check_claim crypto_onion_verify validate_onion_address
  check_ok sig made =
      let v = pubkey-IsOnion E addr pk address in
      let total : length (addr ++ sig) ≡ 126 =
        length-append addr sig
        ∙ (let l = v.long in let m = L.sign_length _ sk sig made in omega arith) in
      let size : (suc (length (addr ++ sig)) == 127) ≡ true = rw total refl in
      let name : c_string 62 (addr ++ sig) ≡ addr =
        subst (λ n. c_string n (addr ++ sig) ≡ addr) v.long
          (c_string-NoNul addr sig (onion-NoNul E addr pk v)) in
      let tail : drop 62 (addr ++ sig) ≡ sig =
        subst (λ n. drop n (addr ++ sig) ≡ sig) v.long (drop_front addr sig) in
      rw (size, name, tail, address, L.verify_sign seed pk sk _ sig keys made) target_passes

-- Where signatures verify and have 64 bytes, and the onion address of an identity holds the
-- public key of its seed, the claim that the code builds for the identity is built without an
-- error, and is accepted for its static key and address by an end that dialled that address or
-- none.
pub claim_accepted :
    (E : Ed25519) (L : Ed25519Laws E) (addr static_pub seed pk sk target : Bytes)
    → E.seed_keypair seed ≡ some (pk, sk)
    → crypto_onion_pubkey E addr ≡ ok pk
    → (target ≡ []) ⊎ (target ≡ addr)
    → (pl : Bytes) × (hs_build_claim_payload E
          (record { onion_seed = some seed; static_pub = some static_pub; onion_addr = addr })
        ≡ ok pl)
      × (check_claim E pl static_pub target ≡ ok addr)
claim_accepted E L addr static_pub seed pk sk target keys address dialled =
    let (sig, made) = L.sign_total (onion_bind_msg addr static_pub) sk in
    (
      1 ∷ addr ++ sig,
      built E L addr static_pub seed pk sk target keys address dialled sig made,
      check_ok E L addr static_pub seed pk sk target keys address dialled sig made,
    )
