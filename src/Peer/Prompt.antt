-- ===== src/Peer/Prompt.antt =====
-- The open TOFU prompt and the user's answer to it (src/state_machine.c, action_tofu_prompt;
-- src/stdin_handler.c, tofu_user_response).
use noxtor_cli.Prelude.{
  ℕ, zero, suc, ◌≤◌, ◌<◌, ◌≡◌, ◌≢◌, refl, ap, subst, sym, ◌∙◌, Bool, true, false, Option, none,
  some, arith, inl, inr, Bool-cases, ltb,
}
use native.Mathlib.Decide.{ℕ_discrete}
use noxtor_cli.Common.{Result, ok, err}
use noxtor_cli.Sodium.{Sodium}
use noxtor_cli.Noise.Cipher.{Session}
use noxtor_cli.Noise.Messages.{Handshake}
use noxtor_cli.Noise.Handshake.{handshake_split}
use noxtor_cli.Peer.Types.{PeerState, PeerEvent, App, Env, Peer, set_peer, max_peers}
use noxtor_cli.Peer.Table.{Action, Transition, transitions, find}
use noxtor_cli.Peer.Actions.{
  action_cleanup, action_tofu_accept, action_tofu_prompt, action_nothing, stale, finish_accept,
  allocate_session, accept_handshake, check_token, record_contact,
}
use noxtor_cli.Peer.Dispatch.{
  run_action, settle, apply_row, dispatch_level, sm_dispatch, close_prompt, after_accept,
  is_pending, pending, tofu_user_response, answer, answer_one,
}
use noxtor_cli.Peer.Frame.{sm_dispatch_apart}
use noxtor_cli.Peer.Tofu.{not_stale}

-- What the user was shown, and that an answer is awaited.
pub record SamePrompt (a a' : App) : Type 0 where
  pub epoch : a'.tofu_prompt_epoch ≡ a.tofu_prompt_epoch
  pub key : a'.tofu_prompt_fp ≡ a.tofu_prompt_fp

abbrev KeepsPrompt : (ℕ → App → App) → Type 0
KeepsPrompt f = (i : ℕ) (a : App) → SamePrompt a (f i a)

chain : (a b c : App) → SamePrompt a b → SamePrompt b c → SamePrompt a c
chain a b c p q = record { epoch = q.epoch ∙ p.epoch; key = q.key ∙ p.key }

module _ (env : Env) (f : ℕ → App → App) (keep : KeepsPrompt f) (i : ℕ) where
  finish_prompt :
      (a : App) (r : Handshake × Result Session) → SamePrompt a (finish_accept env f i a r).0
  finish_prompt a (hs', ok s) = record { epoch = refl; key = refl }
  finish_prompt a (hs', err e) =
      let b = set_peer a i (record (a.peers i) { hs = some hs'; session = none }) in
      chain a b (f i b) (record { epoch = refl; key = refl }) (keep i b)

  session_prompt :
      (S : Sodium) (a : App) (hs : Handshake) (mem : Bool)
      → SamePrompt a (allocate_session S env f i a hs mem).0
  session_prompt S a hs true = finish_prompt a (handshake_split S hs)
  session_prompt S a hs false =
      let b = set_peer a i (record (a.peers i) { session = none }) in
      chain a b (f i b) (record { epoch = refl; key = refl }) (keep i b)

  handshake_prompt :
      (S : Sodium) (a : App) (o : Option Handshake)
      → SamePrompt a (accept_handshake S env f i a o).0
  handshake_prompt S a none = record { epoch = refl; key = refl }
  handshake_prompt S a (some hs) =
      let b = record_contact a (a.peers i) in
      chain a b (allocate_session S env f i b hs env.session_alloc).0 (ground arith)
        (session_prompt S b hs env.session_alloc)

  token_prompt : (S : Sodium) (a : App) (old : Bool) → SamePrompt a (check_token S env f i a old).0
  token_prompt S a true = record { epoch = refl; key = refl }
  token_prompt S a false = handshake_prompt S a (a.peers i).hs

  action_prompt :
      (S : Sodium) (act : Action) (a : App)
      → a.tofu_prompt_epoch ≢ 0
      → SamePrompt a (run_action S env f act i a).0
  unfolding run_action action_cleanup action_tofu_prompt action_tofu_accept action_nothing
  action_prompt S Action.cleanup a h = record { epoch = refl; key = refl }
  action_prompt S Action.tofu_prompt a h = ground arith
  action_prompt S Action.tofu_accept a h = token_prompt S a (stale (a.peers i) a)
  action_prompt S _ a h = record { epoch = refl; key = refl }

  settle_prompt :
      (to : PeerState) (a : App) (r : App × Result (Unit {0}))
      → SamePrompt a r.0
      → SamePrompt a (settle to i r).0
  settle_prompt to a (b, ok u) p = record { epoch = p.epoch; key = p.key }
  settle_prompt to a (b, err e) p = p

  row_prompt :
      (S : Sodium) (a : App) (t : Option Transition)
      → a.tofu_prompt_epoch ≢ 0
      → SamePrompt a (apply_row S env f i a t).0
  row_prompt S a none h = record { epoch = refl; key = refl }
  row_prompt S a (some t) h =
      settle_prompt t.to a (run_action S env f t.action i a) (action_prompt S t.action a h)

disconnect_prompt :
    (S : Sodium) (env : Env) (f : ℕ → App → App) (i : ℕ) (a : App) (s : PeerState)
    → SamePrompt a (apply_row S env f i a (find s PeerEvent.peer_disconnected transitions)).0
unfolding transitions find run_action action_cleanup
disconnect_prompt S env f i a PeerState.idle = record { epoch = refl; key = refl }
disconnect_prompt S env f i a _ = record { epoch = refl; key = refl }

-- While a prompt is open, no event of any connection changes the fingerprint and the number that
-- the user was asked about.
pub prompt_kept :
    (S : Sodium) (env : Env) (i : ℕ) (a : App) (ev : PeerEvent)
    → a.tofu_prompt_epoch ≢ 0
    → SamePrompt a (sm_dispatch S env i a ev).0
unfolding sm_dispatch dispatch_level
prompt_kept S env i a ev h =
    row_prompt env (λ j b. (dispatch_level S env 1 j b PeerEvent.peer_disconnected).0)
      (λ j b. disconnect_prompt S env _ j b (b.peers j).state) i S a
      (find (a.peers i).state ev transitions) h

-- What the user accepts with "y".
pub record AcceptsShown (a : App) (j : ℕ) : Type 0 where
  pub key_shown : (a.peers j).tofu_new_key ≡ a.tofu_prompt_fp
  pub epoch_shown : (a.peers j).tofu_epoch ≡ a.tofu_prompt_epoch
  pub only_one : pending max_peers a.peers ≡ (1, some j)

after_accept_apart :
    (S : Sodium) (env : Env) (i j : ℕ) (a : App) (r : App × Result (Unit {0}))
    → j ≢ i
    → r.0.peers j ≡ a.peers j
    → (after_accept S env i r).peers j ≡ a.peers j
after_accept_apart S env i j a (b, ok u) h e = e
after_accept_apart S env i j a (b, err x) h e =
    sm_dispatch_apart S env i j (close_prompt b) PeerEvent.peer_disconnected h ∙ e

fresh_answer :
    (S : Sodium) (env : Env) (a : App) (i j : ℕ) (old : Bool)
    → stale (a.peers i) a ≡ old
    → (a.peers j).state ≢ PeerState.active
    → ((answer S env a true i).peers j).state ≡ PeerState.active
    → (old ≡ false) × (j ≡ i)
unfolding answer
fresh_answer S env a i j true s before later =
    let same : (a.peers j).state ≡ PeerState.active = rw s at later in absurd (before same)
fresh_answer S env a i j false s before later = elim (ℕ_discrete j i) [
  | yes same ↦ (refl, same)
  | no other ↦
      let e =
        after_accept_apart S env i j a (sm_dispatch S env i a PeerEvent.tofu_accepted) other
          (sm_dispatch_apart S env i j a PeerEvent.tofu_accepted other) in
      let later' : ((after_accept S env i (sm_dispatch S env i a PeerEvent.tofu_accepted)).peers
            j).state
          ≡ PeerState.active =
        rw s at later in
      absurd (before (ap (λ (p : Peer). p.state) (sym e) ∙ later'))
]

one_answer :
    (S : Sodium) (env : Env) (a : App) (j count : ℕ) (o : Option ℕ)
    → (a.peers j).state ≢ PeerState.active
    → ((answer_one S env a true (count, o)).peers j).state ≡ PeerState.active
    → (count ≤ 1) × (o ≡ some j) × (stale (a.peers j) a ≡ false)
one_answer S env a j count none before later = absurd (before later)
one_answer S env a j count (some i) before later = elim (Bool-cases (ltb 1 count)) [
  | inl many ↦
      let same : (a.peers j).state ≡ PeerState.active = rw many at later in absurd (before same)
  | inr few ↦
      let (fresh, same) =
        fresh_answer S env a i j (stale (a.peers i) a) refl before (rw few at later) in
      (ground arith, ap some (sym same), rw same fresh)
]

last_pending :
    (n : ℕ) (peers : ℕ → Peer) (i : ℕ)
    → (pending n peers).1 ≡ some i
    → (0 < (pending n peers).0) × (is_pending (peers i).state ≡ true)
unfolding pending
last_pending zero peers i l = cc
last_pending (suc n) peers i l = elim (Bool-cases (is_pending (peers n).state)) [
  | inl hit ↦
      let e : some n ≡ some i = rw hit at l in
      let same : n ≡ i = ground arith in
      (ground arith, subst (λ k. is_pending (peers k).state ≡ true) same hit)
  | inr miss ↦ let (pos, p) = last_pending n peers i (rw miss at l) in (ground arith, p)
]

-- When the user answers "y", a connection that was not active and becomes active is the one
-- connection that awaited an answer, and its key and prompt number are those that the user was
-- shown.
pub accepts_shown :
    (S : Sodium) (env : Env) (a : App) (j : ℕ)
    → (a.peers j).state ≢ PeerState.active
    → ((tofu_user_response S env a true).peers j).state ≡ PeerState.active
    → AcceptsShown a j
unfolding tofu_user_response
accepts_shown S env a j before later =
    let (few, last, fresh) =
      one_answer S env a j (pending max_peers a.peers).0 (pending max_peers a.peers).1 before
        later in
    let (pos, p) = last_pending max_peers a.peers j last in
    let (epoch, key) = not_stale (a.peers j) a fresh in
    record { key_shown = key; epoch_shown = epoch; only_one = ground arith }

many_answers :
    (S : Sodium) (env : Env) (a : App) (accept : Bool) (count : ℕ) (o : Option ℕ)
    → 1 < count
    → answer_one S env a accept (count, o) ≡ a
many_answers S env a accept count none h = refl
many_answers S env a accept count (some i) h = ground arith

-- While several connections await an answer, any answer changes nothing.
ambiguous_answer :
    (S : Sodium) (env : Env) (a : App) (accept : Bool)
    → 1 < (pending max_peers a.peers).0
    → tofu_user_response S env a accept ≡ a
unfolding tofu_user_response
ambiguous_answer S env a accept h =
    many_answers S env a accept (pending max_peers a.peers).0 (pending max_peers a.peers).1 h
