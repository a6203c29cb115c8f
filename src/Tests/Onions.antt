-- ===== src/Tests/Onions.antt =====
-- The theorems on onion addresses and claims (src/crypto.c, src/event_loop.c) at concrete inputs.
use noxtor_cli.Prelude.{
  ◌≡◌, refl, ap, sym, true, false, [], ◌∷◌, ◌++◌, map, some, none, length, arith, take, replicate,
  inl,
}
use noxtor_cli.Common.{Bytes, Err, ok, err, zeros, bytes_eq}
use noxtor_cli.Noise.Messages.{Handshake}
use noxtor_cli.Noise.Handshake.{handshake_init}
use noxtor_cli.Peer.Types.{PeerState, App}
use noxtor_cli.Onion.Address.{
  Ed25519, all_b32, b32_loop, onion_b32_decode, crypto_onion_pubkey, suffix,
}
use noxtor_cli.Onion.Base32.{AllBytes, number, digit, decode_value}
use noxtor_cli.Onion.Unique.{address_unique}
use noxtor_cli.Onion.Claim.{hs_build_claim_payload, check_claim}
use noxtor_cli.Onion.Honest.{Ed25519Laws, claim_accepted}
use noxtor_cli.Receive.Control.{Host, on_ctrl}
use noxtor_cli.Receive.Verdict.{Running, Outcome}
use noxtor_cli.Receive.Admission.{on_ctrl-Outcome}
use noxtor_cli.Tests.Toy.{toy, env, empty, two, connected_app}

-- Every digest is zeros, one key pair's public key is zeros, and every signature is accepted.
abbrev pub toy_ed : Ed25519
toy_ed = record {
  sha3_256 = λ m. some (zeros 32);
  seed_keypair = λ seed. some (zeros 32, seed);
  sign_detached = λ m k. some (zeros 64);
  verify_detached = λ s m k. true;
}

toy_ed_laws : Ed25519Laws toy_ed
toy_ed_laws = record {
  verify_sign = λ seed pk sk m s e f. refl;
  sign_total = λ m k. (zeros 64, refl);
  sign_length = λ m k s e. ap (λ o. elim o [ none ↦ 64 | some t ↦ length t ]) (some_sym e);
}
  where
    some_sym : {s : Bytes} → some (zeros 64) ≡ some s → some s ≡ some (zeros 64)
    some_sym e = sym e

-- The address of the key that is zeros: "aaa...ad.onion".
abbrev pub onion : Bytes
onion = replicate 55 97 ++ 100 ∷ suffix

in_charset : all_b32 (take 56 onion) ≡ true
unfolding all_b32
in_charset = refl

decode_value_example :
    (body : Bytes) × (onion_b32_decode onion ≡ ok body)
    × (length body ≡ 35)
    × AllBytes body
    × (number 256 0 body ≡ number 32 0 (map digit (take 56 onion)))
decode_value_example = decode_value onion refl in_charset

has_key : crypto_onion_pubkey toy_ed onion ≡ ok (zeros 32)
unfolding crypto_onion_pubkey onion_b32_decode b32_loop all_b32 bytes_eq
has_key = refl

address_unique_example : onion ≡ onion
address_unique_example = address_unique toy_ed onion onion (zeros 32) has_key has_key

claim_accepted_example :
    (pl : Bytes) × (hs_build_claim_payload toy_ed
        (record { onion_seed = some (zeros 32); static_pub = some (zeros 32); onion_addr = onion })
      ≡ ok pl)
    × (check_claim toy_ed pl (zeros 32) [] ≡ ok onion)
claim_accepted_example =
    claim_accepted toy_ed toy_ed_laws onion (zeros 32) (zeros 32) (zeros 32) (zeros 32) [] refl
      has_key (inl refl)

abbrev pub host : Host
host = record {
  ed = toy_ed;
  me = record { onion_seed = some (zeros 32); static_pub = some (zeros 32); onion_addr = onion };
  ephemeral = 6 ∷ zeros 31;
  writev = λ n. some n;
  contact = λ o. err Err.db;
}

abbrev responder : Handshake
responder = handshake_init toy false (1 ∷ zeros 31) (2 ∷ zeros 31)

abbrev shaking_app : App
shaking_app = record connected_app {
  peers =
      two (record empty { state = PeerState.handshake_resp; fd = some 6; hs = some responder })
        empty;
}

running : Running 0 [] shaking_app
unfolding handshake_init
running = record {
  on = refl;
  current = responder;
  has = refl;
  dialled = refl;
  no_session = refl;
  unfinished = omega arith;
}

on_ctrl-Outcome_example :
    Outcome toy_ed (λ o. err Err.db) 0 [] (on_ctrl toy env host 0 6 shaking_app (5 ∷ zeros 31)).0
on_ctrl-Outcome_example = on_ctrl-Outcome toy env host 0 6 [] shaking_app (5 ∷ zeros 31) running
