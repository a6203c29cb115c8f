-- ===== src/Onion/Bound.antt =====
-- What a claim that was accepted says, and that an honest claim is accepted (src/crypto.c,
-- src/event_loop.c).
use noxtor_cli.Prelude.{
  ◌≡◌, refl, ap, sym, ◌∙◌, ◌⊎◌, arith, true, not, ◌&&◌, [], ◌∷◌, ◌==◌, if◌then◌else◌, length, drop,
  get_or, Bool-cases, inl, inr,
}
use noxtor_cli.Common.{Bytes, Err, Result, ok, err, bytes_eq, bytes_eq-eq, c_string}
use noxtor_cli.Onion.Address.{Ed25519, crypto_onion_pubkey, validate_onion_address}
use noxtor_cli.Onion.Unique.{err-ok, ok_inj}
use noxtor_cli.Onion.Claim.{
  onion_bind_msg, crypto_onion_verify, verify_with, if_verified, check_claim,
}

-- The holder of the onion's key signed this static key for this onion, and the onion is the dialled one,
-- if one was dialled.
pub record Bound (E : Ed25519) (pl rs target onion : Bytes) : Type 0 where
  pub onion_key : Bytes
  pub address : crypto_onion_pubkey E onion ≡ ok onion_key
  pub signed : E.verify_detached (drop 63 pl) (onion_bind_msg onion rs) onion_key ≡ true
  pub dialled : (target ≡ []) ⊎ (target ≡ onion)
  pub claimed : onion ≡ c_string 62 (drop 1 pl)

nil_of : (xs : Bytes) → (length xs == 0) ≡ true → xs ≡ []
nil_of [] h = refl
nil_of (x ∷ xs) h = ground arith

module _ (E : Ed25519) (pl rs target onion : Bytes) where
  abbrev claimed_onion : Bytes
  claimed_onion = c_string 62 (drop 1 pl)

  dialled_ok :
      (if not (length target == 0) && not (bytes_eq claimed_onion target)
          then err Err.auth
          else ok claimed_onion)
        ≡ ok onion
      → (claimed_onion ≡ onion) × ((target ≡ []) ⊎ (target ≡ onion))
  dialled_ok e = elim (Bool-cases (length target == 0)) [
    | inl empty ↦ (ok_inj claimed_onion onion (simp empty refl ∙ e), inl (nil_of target empty))
    | inr given ↦ elim (Bool-cases (bytes_eq claimed_onion target)) [
      | inl same ↦
          let q = ok_inj claimed_onion onion (simp (given, same) refl ∙ e) in
          (q, inr (sym (bytes_eq-eq claimed_onion target same) ∙ q))
      | inr other ↦ absurd (err-ok Err.auth onion (simp (given, other) refl ∙ e))
    ]
  ]

  verified-Bound :
      (r : Result Bytes)
      → crypto_onion_pubkey E claimed_onion ≡ r
      → if_verified (verify_with E (drop 63 pl) (onion_bind_msg claimed_onion rs) r) (
          if not (length target == 0) && not (bytes_eq claimed_onion target)
          then err Err.auth
          else ok claimed_onion)
        ≡ ok onion
      → Bound E pl rs target onion
  verified-Bound (err x) p e = absurd (err-ok x onion e)
  verified-Bound (ok k) p e =
      elim (Bool-cases (E.verify_detached (drop 63 pl) (onion_bind_msg claimed_onion rs) k)) [
        | inr bad ↦ absurd (err-ok Err.auth onion (simp bad refl ∙ e))
        | inl good ↦
            let (q, d) = dialled_ok (simp good refl ∙ e) in
            record {
              onion_key = k;
              address = ap (crypto_onion_pubkey E) (sym q) ∙ p;
              signed =
                  ap (λ o. E.verify_detached (drop 63 pl) (onion_bind_msg o rs) k) (sym q) ∙ good;
              dialled = d;
              claimed = sym q;
            }
      ]

  -- If a claim is accepted, then the key in the claimed address verifies the signature of the
  -- claim over that address and the static key of the handshake, and the address is the dialled
  -- one or none was dialled.
  pub check_claim-Bound : check_claim E pl rs target ≡ ok onion → Bound E pl rs target onion
  unfolding check_claim crypto_onion_verify
  check_claim-Bound e = elim (Bool-cases (length pl == 127 && get_or pl 0 0 == 1)) [
    | inr bad ↦ absurd (err-ok Err.proto onion (simp bad refl ∙ e))
    | inl shaped ↦ elim (Bool-cases (validate_onion_address E claimed_onion)) [
      | inr bad ↦ absurd (err-ok Err.proto onion (simp (shaped, bad) refl ∙ e))
      | inl valid ↦
          verified-Bound (crypto_onion_pubkey E claimed_onion) refl (simp (shaped, valid) refl ∙ e)
    ]
  ]
