-- ===== src/Receive/Claimed.antt =====
-- What follows from the claim of a completed handshake in src/event_loop.c.
use noxtor_cli.Prelude.{
  ℕ, ◌≤◌, ◌≡◌, refl, ap, sym, subst, ◌∙◌, arith, Bool, true, false, none, some, ltb, ◌==◌,
  if◌then◌else◌, length, take, Bool-cases, inl, inr,
}
use noxtor_cli.Common.{Bytes, Err, Result, ok, err, bytes_eq, bytes_eq-eq, is_zero}
use noxtor_cli.Sodium.{Sodium}
use noxtor_cli.Noise.Cipher.{Session}
use noxtor_cli.Noise.Messages.{Handshake}
use noxtor_cli.Noise.Handshake.{handshake_split}
use noxtor_cli.Peer.Types.{PeerState, PeerEvent, Peer, App, Env, set_peer}
use noxtor_cli.Peer.TableLaws.{shaking}
use noxtor_cli.Peer.Dispatch.{sm_dispatch}
use noxtor_cli.Peer.Slot.{slot_same}
use noxtor_cli.Peer.Cleanup.{idle-IsClean}
use noxtor_cli.Onion.Claim.{check_claim}
use noxtor_cli.Onion.Bound.{Bound, check_claim-Bound}
use noxtor_cli.Receive.Shaking.{handshake_done-Prompted, session_ready-Activated, failing}
use noxtor_cli.Receive.Verdict.{Live, Outcome, take_onion, SameKey, split-SameKey}
use noxtor_cli.Receive.Control.{
  Host, ends, with_hs, split_known, known_peer, undecided, ask_user, by_contact, stored, on_claim,
  completed, peer_name, admitted, named,
}

module _ (S : Sodium) (env : Env) (H : Host) (i : ℕ) (fd : ℕ) (target : Bytes) where
  abbrev pub Out : App → Type 0
  Out b = Outcome H.ed H.contact i target b

  pub error-Out :
      (go : Bool) (a : App)
      → shaking (a.peers i).state ≡ true
      → Out (ends S env i go PeerEvent.handshake_error a).0
  unfolding Outcome
  error-Out go a on =
      let (x, st, c, rel) =
        idle-IsClean S env i a PeerEvent.handshake_error (failing (a.peers i).state on).0 in
      inl (st, c)

  pub alloc-Out :
      (go : Bool) (a : App)
      → shaking (a.peers i).state ≡ true
      → Out (ends S env i go PeerEvent.arena_fail a).0
  unfolding Outcome
  alloc-Out go a on =
      let (x, st, c, rel) =
        idle-IsClean S env i a PeerEvent.arena_fail (failing (a.peers i).state on).1 in
      inl (st, c)

  -- The state of a slot that is written to.
  pub still :
      (a : App) (p : Peer)
      → shaking p.state ≡ true
      → shaking ((set_peer a i p).peers i).state ≡ true
  still a p on = ap (λ (q : Peer). shaking q.state) (slot_same a i p) ∙ on

  ask-Outcome :
      (a : App) (hs : Handshake) (pl onion name : Bytes) (z : Bool)
      → Live i target hs a
      → 3 ≤ hs.msg_index
      → Bound H.ed pl hs.rs target onion
      → Out (ask_user S env i fd a onion name hs.rs z).0
  unfolding ask_user Outcome
  ask-Outcome a hs pl onion name z v c bound =
      let p = undecided env fd onion name hs.rs z (a.peers i) in
      let b = set_peer a i p in
      let q = handshake_done-Prompted S env i b (still a p v.on) in
      let slot : ((sm_dispatch S env i b PeerEvent.handshake_done).0.peers i)
          ≡ record p { tofu_epoch = q.epoch; state = PeerState.tofu_pending } =
        q.slot
        ∙ ap {A = Peer} {B = Peer}
            (λ r. record r { tofu_epoch = q.epoch; state = PeerState.tofu_pending })
            (slot_same a i p) in
      inr (
        inr (
          inl (record {
            state = ap (λ r. r.state) slot;
            current = hs;
            has = ap (λ r. r.hs) slot ∙ v.has;
            complete = c;
            payload = pl;
            onion = onion;
            bound = bound;
            shown_key = ap (λ r. r.tofu_new_key) slot;
            shown_onion = ap (λ r. r.tofu_onion) slot ∙ take_onion H.ed pl hs.rs target onion bound;
            unverified = ap (λ r. r.peer_verified) slot;
            no_session = ap (λ r. r.session) slot ∙ v.no_session;
          })))

  split-Outcome :
      (a : App) (hs : Handshake) (pl onion name : Bytes) (r : Handshake × Result Session)
      → Live i target hs a
      → Bound H.ed pl hs.rs target onion
      → H.contact onion ≡ ok (name, hs.rs)
      → SameKey hs r
      → Out (split_known S env i a onion r).0
  unfolding SameKey Outcome
  split-Outcome a hs pl onion name (hs', err e) v bound known k =
      error-Out true (with_hs a i hs') (still a (record (a.peers i) { hs = some hs' }) v.on)
  split-Outcome a hs pl onion name (hs', ok s) v bound known k = admit
    where
      p : Peer
      p = admitted env (a.peers i) s

      b : App
      b = (sm_dispatch S env i (set_peer a i p) PeerEvent.session_ready).0

      slot : b.peers i ≡ record p { state = PeerState.active }
      slot =
          (session_ready-Activated S env i (set_peer a i p) (still a p v.on)).slot
          ∙ ap {A = Peer} {B = Peer} (λ r. record r { state = PeerState.active }) (slot_same a i p)

      final :
          (named i onion b).peers i
          ≡ record p { state = PeerState.active; peer_onion = take 62 onion }
      final =
          slot_same b i (record (b.peers i) { peer_onion = take 62 onion })
          ∙ ap {A = Peer} {B = Peer} (λ r. record r { peer_onion = take 62 onion }) slot

      admit : Out (named i onion b)
      admit = inr (
          inr (
            inr (record {
              state = ap (λ r. r.state) final;
              session = s;
              has = ap (λ r. r.session) final;
              payload = pl;
              onion = onion;
              bound = subst (λ key. Bound H.ed pl key target onion) (sym k) bound;
              name = name;
              known = known ∙ ap (λ key. ok (name, key)) (sym k);
              stands_for =
                  ap (λ r. r.peer_onion) final ∙ take_onion H.ed pl hs.rs target onion bound;
              numbered = (ap (λ r. r.tx_seq) final, ap (λ r. r.rx_seq) final);
            })))

  contact-Outcome :
      (a : App) (hs : Handshake) (pl onion : Bytes) (r : Result (Bytes × Bytes))
      → Live i target hs a
      → 3 ≤ hs.msg_index
      → Bound H.ed pl hs.rs target onion
      → ((c : Bytes × Bytes) → r ≡ ok c → H.contact onion ≡ ok c)
      → Out (by_contact S env i fd a hs onion r).0
  unfolding known_peer
  contact-Outcome a hs pl onion (err e) v c bound from =
      ask-Outcome a hs pl onion (peer_name onion) false v c bound
  contact-Outcome a hs pl onion (ok (name, key)) v c bound from = elim (Bool-cases (is_zero key)) [
    | inl placeholder ↦ rw placeholder (
        ask-Outcome a hs pl onion (if length name == 0 then peer_name onion else name) true v c
          bound)
    | inr given ↦ elim (Bool-cases (bytes_eq key hs.rs)) [
      | inr other ↦ simp (given, other) (ask-Outcome a hs pl onion name false v c bound)
      | inl same ↦
          simp (given, same)
            (known-Outcome
              (from (name, key) refl ∙ ap (λ k. ok (name, k)) (bytes_eq-eq key hs.rs same)))
    ]
  ]
    where
      known-Outcome : H.contact onion ≡ ok (name, hs.rs) → Out (known_peer S env i a hs onion).0
      known-Outcome known = elim (Bool-cases env.session_alloc) [
        | inl got ↦ simp got (
            split-Outcome a hs pl onion name (handshake_split S hs) v bound known
              (split-SameKey S hs))
        | inr lacking ↦ simp lacking (
            alloc-Out true (set_peer a i (record (a.peers i) { session = none }))
              (still a (record (a.peers i) { session = none }) v.on))
      ]

  stored_contact :
      (a : App) (onion : Bytes) (c : Bytes × Bytes)
      → stored H a onion ≡ ok c
      → H.contact onion ≡ ok c
  stored_contact a onion c e = elim (Bool-cases a.ghost_mode) [
    | inl ghost ↦ absurd (no_contact (simp ghost refl ∙ e))
    | inr normal ↦ simp normal refl ∙ e
  ]
    where
      no_contact : ◌≡◌ {A = Result (Bytes × Bytes)} (err Err.db) (ok c) → ⊥
      no_contact h = ground arith

  claim-Outcome :
      (a : App) (hs : Handshake) (pl : Bytes) (r : Result Bytes)
      → Live i target hs a
      → 3 ≤ hs.msg_index
      → check_claim H.ed pl hs.rs target ≡ r
      → Out (on_claim S env H i fd a hs r).0
  claim-Outcome a hs pl (err e) v c q = error-Out true a v.on
  claim-Outcome a hs pl (ok onion) v c q =
      contact-Outcome a hs pl onion (stored H a onion) v c
        (check_claim-Bound H.ed pl hs.rs target onion q) (stored_contact a onion)

  pub completed-Outcome :
      (a : App) (hs : Handshake) (pl : Bytes)
      → Live i target hs a
      → Out (completed S env H i fd a hs pl).0
  unfolding completed Outcome
  completed-Outcome a hs pl v = elim (Bool-cases (ltb hs.msg_index 3)) [
    | inl more ↦ rw more (
        inr (
          inl (record {
            on = v.on;
            current = hs;
            has = v.has;
            dialled = v.dialled;
            no_session = v.no_session;
            unfinished = ground arith;
          })))
    | inr last ↦ simp last (
        claim-Outcome a hs pl (check_claim H.ed pl hs.rs (a.peers i).connect_target) v
          (ground arith) (ap (check_claim H.ed pl hs.rs) (sym v.dialled)))
  ]
