-- ===== src/Peer/TableLaws.antt =====
-- The transition table of src/state_machine.c as a whole.
use noxtor_cli.Prelude.{
  ℕ, suc, ◌≤◌, ◌≡◌, refl, ap, sym, ◌∙◌, Bool, true, false, ◌&&◌, ◌||◌, not, List, [], ◌∷◌, Option,
  none, some, arith, ◌==◌, if◌then◌else◌, Bool-cases, inl, inr,
}
use noxtor_cli.Peer.Types.{PeerState, PeerEvent}
use noxtor_cli.Peer.Table.{Transition, transitions, find, matches, state_code}

unfoldable pub all_rows : (Transition → Bool) → List Transition → Bool
all_rows p [] = true
all_rows p (t ∷ ts) = p t && all_rows p ts

-- What holds of every row holds of the row that is found.
pub find_all :
    (p : Transition → Bool) (s : PeerState) (e : PeerEvent) (ts : List Transition) {t : Transition}
    → all_rows p ts ≡ true
    → find s e ts ≡ some t
    → p t ≡ true
unfolding all_rows find
find_all p s e [] h q = cc
find_all p s e (r ∷ rs) h q = elim (Bool-cases (matches s e r)) [
  | inl hit ↦ let same : some r ≡ some _ = rw hit at q in ground arith
  | inr miss ↦ find_all p s e rs (ground arith) (rw miss at q)
]

pub count_matches : PeerState → PeerEvent → List Transition → ℕ
count_matches s e [] = 0
count_matches s e (t ∷ ts) =
    if matches s e t then suc (count_matches s e ts) else count_matches s e ts

abbrev Ps : Type 0
Ps = PeerState

-- The state machine as its documentation tells it: where an event leads from a state, and
-- `none` where it is refused.
abbrev pub shaking : PeerState → Bool
shaking PeerState.handshake_init = true
shaking PeerState.handshake_resp = true
shaking _ = false

abbrev pub is_up : PeerState → Bool
is_up PeerState.active = true
is_up PeerState.file_tx = true
is_up PeerState.file_rx = true
is_up _ = false

abbrev when : Bool → PeerState → Option PeerState
when b s = if b then some s else none

abbrev is : PeerState → PeerState → Bool
is s t = state_code s == state_code t

unfoldable pub next : PeerState → PeerEvent → Option PeerState
next s PeerEvent.connect_cmd = when (is s PeerState.idle) PeerState.handshake_init
next s PeerEvent.peer_accepted = when (is s PeerState.idle) PeerState.handshake_resp
next s PeerEvent.handshake_msg = when (shaking s) s
next s PeerEvent.handshake_done = when (shaking s) PeerState.tofu_pending
next s PeerEvent.session_ready = when (shaking s) PeerState.active
next s PeerEvent.tofu_accepted = when (is s PeerState.tofu_pending) PeerState.active
next s PeerEvent.tofu_rejected = when (is s PeerState.tofu_pending) PeerState.idle
next s PeerEvent.peer_disconnected = when (not (is s PeerState.idle)) PeerState.idle
next s PeerEvent.handshake_timeout = when (shaking s) PeerState.idle
next s PeerEvent.handshake_error = when (shaking s) PeerState.idle
next s PeerEvent.file_start = when (is s PeerState.active) PeerState.file_tx
next s PeerEvent.file_rx_start = when (is s PeerState.active) PeerState.file_rx
next s PeerEvent.file_done =
    when (is s PeerState.file_tx || is s PeerState.file_rx) PeerState.active
next s PeerEvent.rate_limit = when (shaking s) PeerState.idle
next s PeerEvent.seq_mismatch = when (is_up s) PeerState.idle
next s PeerEvent.arena_fail = when (shaking s) PeerState.idle
next s PeerEvent.tor_died = some PeerState.idle

abbrev pub target : Option Transition → Option PeerState
target none = none
target (some t) = some t.to

abbrev pub Agrees : PeerState → PeerEvent → Type 0
Agrees s e = (target (find s e transitions) ≡ next s e) × (count_matches s e transitions ≤ 1)

-- For every state and event, the table leads to the state that the rules of the machine say, or
-- refuses the event where they do, and it has at most one row for them.
pub table-next : (s : PeerState) (e : PeerEvent) → Agrees s e
unfolding transitions find next count_matches
table-next PeerState.idle PeerEvent.connect_cmd = (refl, omega arith)
table-next PeerState.idle _ = (refl, omega arith)
table-next PeerState.connecting PeerEvent.connect_cmd = (refl, omega arith)
table-next PeerState.connecting _ = (refl, omega arith)
table-next PeerState.handshake_init PeerEvent.connect_cmd = (refl, omega arith)
table-next PeerState.handshake_init _ = (refl, omega arith)
table-next PeerState.handshake_resp PeerEvent.connect_cmd = (refl, omega arith)
table-next PeerState.handshake_resp _ = (refl, omega arith)
table-next PeerState.tofu_pending PeerEvent.connect_cmd = (refl, omega arith)
table-next PeerState.tofu_pending _ = (refl, omega arith)
table-next PeerState.active PeerEvent.connect_cmd = (refl, omega arith)
table-next PeerState.active _ = (refl, omega arith)
table-next PeerState.file_tx PeerEvent.connect_cmd = (refl, omega arith)
table-next PeerState.file_tx _ = (refl, omega arith)
table-next PeerState.file_rx PeerEvent.connect_cmd = (refl, omega arith)
table-next PeerState.file_rx _ = (refl, omega arith)

-- The row that is found starts in the state.
pub find-from :
    (s : PeerState) (e : PeerEvent) {t : Transition}
    → find s e transitions ≡ some t
    → next s e ≡ some t.to
find-from s e {t} q = sym (table-next s e).0 ∙ ap target q
