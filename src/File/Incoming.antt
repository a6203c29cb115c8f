-- ===== src/File/Incoming.antt =====
-- file_transfer_handle_rx of src/file_transfer.c as a whole: from the METADATA frame to the last byte.
use noxtor_cli.Prelude.{
  ℕ, ◌-◌, ◌≡◌, ap, sym, subst, ◌∙◌, true, ◌||◌, List, [], ◌∷◌, ◌++◌, Option, none, some, ltb,
  length, take, append_nil, Bool-cases, inl, inr,
}
use noxtor_cli.Common.{Bytes, mac_len, max_payload_len}
use noxtor_cli.Sodium.{Sodium}
use noxtor_cli.Noise.Cipher.{Session, noise_decrypt}
use noxtor_cli.Peer.Types.{App, Env, Effect, set_peer}
use noxtor_cli.Peer.Slot.{slot_same}
use noxtor_cli.File.Storage.{Storage}
use noxtor_cli.File.Receive.{
  rx_abort, abort_with, is_metadata, rx_chunk, rx_plain, rx_decrypted, decrypt_in,
  file_transfer_handle_rx,
}
use noxtor_cli.File.Stages.{Announced, Receiving, Dropped, Outcome}
use noxtor_cli.File.Transfer.{abort-Dropped, rx_chunk-Outcome}

-- The bytes received after a frame are those before it and perhaps more.
abbrev Continues : Storage → List Effect → Announced → ℕ → Bytes → App → Type 0
Continues D base n i bytes a = (more : Bytes) × Outcome D base n i (bytes ++ more) a

module _ (S : Sodium) (env : Env) (D : Storage) (base : List Effect) (n : Announced) (i : ℕ) where
  ended :
      (a : App) (bytes : Bytes)
      → (v : Receiving base n i a bytes) → Continues D base n i bytes (rx_abort S env i a).0
  unfolding Outcome
  ended a bytes v = (
    [],
    inr (
        inr (
          subst (λ f. Dropped base n i (abort_with S env i a f).0) (sym v.rx)
            (abort-Dropped S env i base v.new n a bytes v.time v.recorded v.dir_open v.silent))),
  )

  abbrev is_on :
      (a : App) (bytes : Bytes) → Receiving base n i a bytes → (a.peers i).rx_file.active ≡ true
  is_on a bytes v = ap (λ f. f.active) v.rx

  plain-Continues :
      (a : App) (bytes pt : Bytes)
      → Receiving base n i a bytes
      → Continues D base n i bytes (rx_plain S env D i a pt).0
  plain-Continues a bytes pt v = elim (Bool-cases (is_metadata pt)) [
    | inl meta ↦ simp (meta, is_on a bytes v) (ended a bytes v)
    | inr chunk ↦
        simp (chunk, is_on a bytes v)
          (
            take (n.size - length bytes) pt,
            subst
                (λ f.
                  Outcome D base n i (bytes ++ take (n.size - length bytes) pt)
                    (rx_chunk S env D i a f pt).0)
                (sym v.rx) (rx_chunk-Outcome S env i D base n a bytes pt v),
          )
  ]

  decrypted-Continues :
      (a : App) (bytes : Bytes) (r : Option Bytes)
      → Receiving base n i a bytes
      → Continues D base n i bytes (rx_decrypted S env D i a r).0
  decrypted-Continues a bytes none v = simp (is_on a bytes v) (ended a bytes v)
  decrypted-Continues a bytes (some []) v = simp (is_on a bytes v) (ended a bytes v)
  decrypted-Continues a bytes (some (b ∷ bs)) v = plain-Continues a bytes (b ∷ bs) v

  same : (a : App) (bytes : Bytes) → Receiving base n i a bytes → Continues D base n i bytes a
  unfolding Outcome
  same a bytes v = ([], inl (subst (Receiving base n i a) (sym (append_nil bytes)) v))

  rekeyed :
      (a : App) (bytes : Bytes) (t : Session)
      → Receiving base n i a bytes
      → Receiving base n i (set_peer a i (record (a.peers i) { session = some t })) bytes
  rekeyed a bytes t v = record {
    time = v.time;
    rx = ap (λ p. p.rx_file) (slot_same a i (record (a.peers i) { session = some t })) ∙ v.rx;
    dir_open = v.dir_open;
    new = v.new;
    recorded = v.recorded;
    written = v.written;
    silent = v.silent;
    incomplete = v.incomplete;
  }

  session-Continues :
      (a : App) (bytes payload : Bytes) (o : Option Session)
      → Receiving base n i a bytes
      → (Continues D base n i bytes
          (rx_decrypted S env D i (decrypt_in S i a o payload).0 (decrypt_in S i a o payload).1).0)
  session-Continues a bytes payload none v = decrypted-Continues a bytes none v
  session-Continues a bytes payload (some s) v =
      decrypted-Continues _ bytes (noise_decrypt S s payload).1
        (rekeyed a bytes (noise_decrypt S s payload).0 v)

  -- While a file is being received, of which some bytes were written and hashed so far,
  -- whatever payload arrives and whatever the disk answers, the code does a step of an abstract
  -- transfer: it still receives, with those bytes and perhaps more, fewer than announced; or
  -- exactly as many bytes as announced were written, their hash with the size is the announced
  -- one, and the file is reported once; or the file is removed and not reported.
  pub handle_rx-Outcome :
      (a : App) (bytes payload : Bytes)
      → Receiving base n i a bytes
      → (more : Bytes) × Outcome D base n i
          (bytes ++ more)
          (file_transfer_handle_rx S env D i a payload).0
  unfolding file_transfer_handle_rx
  handle_rx-Outcome a bytes payload v =
      elim (Bool-cases (ltb (length payload) mac_len || ltb max_payload_len (length payload))) [
        | inl bad ↦ rw bad (same a bytes v)
        | inr fits ↦ elim (Bool-cases D.payload_alloc) [
          | inl got ↦ simp (fits, got) (session-Continues a bytes payload (a.peers i).session v)
          | inr lacking ↦ simp (fits, lacking) (same a bytes v)
        ]
      ]
