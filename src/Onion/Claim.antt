-- ===== src/Onion/Claim.antt =====
-- onion_bind_msg, crypto_onion_sign and crypto_onion_verify (src/crypto.c), hs_build_claim_payload,
-- and the checks that process_peer_frames makes of a claim (src/event_loop.c).
use noxtor_cli.Prelude.{
  not, ◌&&◌, [], ◌∷◌, ◌++◌, Option, none, some, ◌==◌, if◌then◌else◌, length, take, drop, get_or,
}
use noxtor_cli.Common.{Bytes, Err, Result, ok, err, bytes_eq, c_string}
use noxtor_cli.Onion.Address.{Ed25519, crypto_onion_pubkey, validate_onion_address}

-- "noxtor-bind-v1"
abbrev pub bind_ctx : Bytes
bind_ctx = 110 ∷ 111 ∷ 120 ∷ 116 ∷ 111 ∷ 114 ∷ 45 ∷ 98 ∷ 105 ∷ 110 ∷ 100 ∷ 45 ∷ 118 ∷ 49 ∷ []

unfoldable pub onion_bind_msg : Bytes → Bytes → Bytes
onion_bind_msg addr static_pub = bind_ctx ++ (take 62 addr ++ take 32 static_pub)

abbrev pub or_crypto : Option Bytes → Result Bytes
or_crypto none = err Err.crypto
or_crypto (some sig) = ok sig

abbrev pub sign_with : Ed25519 → Bytes → Option (Bytes × Bytes) → Result Bytes
sign_with E msg none = err Err.crypto
sign_with E msg (some (pk, sk)) = or_crypto (E.sign_detached msg sk)

unfoldable pub crypto_onion_sign : Ed25519 → Bytes → Bytes → Bytes → Result Bytes
crypto_onion_sign E addr static_pub onion_seed =
    if not (length addr == 62)
    then err Err.proto
    else sign_with E (onion_bind_msg addr static_pub) (E.seed_keypair onion_seed)

abbrev pub verify_with : Ed25519 → Bytes → Bytes → Result Bytes → Result (Unit {0})
verify_with E sig msg (err e) = err e
verify_with E sig msg (ok pub_key) =
    if E.verify_detached sig msg pub_key then ok tt else err Err.auth

unfoldable pub crypto_onion_verify : Ed25519 → Bytes → Bytes → Bytes → Result (Unit {0})
crypto_onion_verify E sig addr static_pub =
    verify_with E sig (onion_bind_msg addr static_pub) (crypto_onion_pubkey E addr)

-- my_onion_seed, my_static_pub and onion_addr of struct app_state.
pub record Identity : Type 0 where
  pub onion_seed : Option Bytes
  pub static_pub : Option Bytes
  pub onion_addr : Bytes

abbrev pub claim_of : Bytes → Result Bytes → Result Bytes
claim_of addr (err e) = err e
claim_of addr (ok sig) = ok (1 ∷ take 62 addr ++ sig)

abbrev pub claim_with : Ed25519 → Bytes → Option Bytes → Option Bytes → Result Bytes
claim_with E addr none key = err Err.state
claim_with E addr (some seed) none = err Err.state
claim_with E addr (some seed) (some key) = claim_of addr (crypto_onion_sign E addr key seed)

unfoldable pub hs_build_claim_payload : Ed25519 → Identity → Result Bytes
hs_build_claim_payload E me = claim_with E me.onion_addr me.onion_seed me.static_pub

abbrev pub if_verified : Result (Unit {0}) → Result Bytes → Result Bytes
if_verified (err e) r = err e
if_verified (ok u) r = r

-- The onion that a handshake payload claims for the static key `rs`, where every check is passed;
-- `target` is the address that was dialled, or empty.
unfoldable pub check_claim : Ed25519 → Bytes → Bytes → Bytes → Result Bytes
check_claim E pl rs target =
    if not (length pl == 127 && get_or pl 0 0 == 1)
    then err Err.proto
    else let peer_onion = c_string 62 (drop 1 pl) in
      if not (validate_onion_address E peer_onion)
      then err Err.proto
      else if_verified (crypto_onion_verify E (drop 63 pl) peer_onion rs) (
          if not (length target == 0) && not (bytes_eq peer_onion target)
          then err Err.auth
          else ok peer_onion)
