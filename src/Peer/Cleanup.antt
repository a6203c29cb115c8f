-- ===== src/Peer/Cleanup.antt =====
-- action_cleanup of src/state_machine.c: what is left of a connection that has ended.
use noxtor_cli.Prelude.{
  ℕ, ◌≡◌, refl, ap, sym, ◌∙◌, ◌⊎◌, Bool, true, false, List, [], ◌++◌, Option, none, some, arith,
  inl, inr, ◌==◌, not, ◌||◌, Option-cases, Bool-cases, if◌then◌else◌,
}
use mathlib.Core.Logic.Or
use mathlib.Core.List.{Mem, mem-cons, mem-append}
use noxtor_cli.Common.{Result, ok, zeros, key_len}
use noxtor_cli.Sodium.{Sodium}
use noxtor_cli.Peer.Types.{PeerState, PeerEvent, App, Env, Effect, FileRx, FileTx, close}
use noxtor_cli.Peer.Table.{Action, Transition, transitions, find, state_code}
use noxtor_cli.Peer.TableLaws.{next, table-next, find_all, all_rows, find-from, target}
use noxtor_cli.Peer.Actions.{
  action_cleanup, cleaned, is_active, close_fd, close_peer, drop_rx, drop_tx, no_rx, no_tx,
}
use noxtor_cli.Peer.Dispatch.{run_action, settle, apply_row, dispatch_level, sm_dispatch}

-- No descriptor, key material, identity, decision or buffered data of the connection is left, and
-- the slot is not the active one.
pub record IsClean (a : App) (i : ℕ) : Type 0 where
  pub offline : ((a.peers i).fd ≡ none) × ((a.peers i).tofu_peer_fd ≡ none)
  pub keyless : ((a.peers i).hs ≡ none) × ((a.peers i).session ≡ none)
  pub sequences : ((a.peers i).tx_seq ≡ 0) × ((a.peers i).rx_seq ≡ 0)
  pub anonymous :
      ((a.peers i).peer_onion ≡ []) × ((a.peers i).name ≡ []) × ((a.peers i).connect_target ≡ [])
  pub undecided :
      ((a.peers i).tofu_pending ≡ false)
      × ((a.peers i).tofu_new_key ≡ zeros key_len)
      × ((a.peers i).tofu_onion ≡ [])
      × ((a.peers i).tofu_name ≡ [])
      × ((a.peers i).tofu_was_zero_key ≡ false)
      × ((a.peers i).peer_verified ≡ false)
  pub drained : ((a.peers i).recv_buf ≡ []) × ((a.peers i).unread_count ≡ 0)
  pub restarted : ((a.peers i).last_active ≡ 0) × ((a.peers i).queue_flushed ≡ false)
  pub idle_files : ((a.peers i).rx_file.active ≡ false) × ((a.peers i).tx_file.active ≡ false)
  pub inactive : is_active a.active_peer_idx i ≡ false

-- A descriptor that was held is closed.
pub Closed : Option ℕ → List Effect → Type 0
Closed none es = Unit {0}
Closed (some fd) es = Mem (close fd) es

-- What became of the descriptors: that of the connection and those of running transfers are
-- closed, and such a transfer is reset with its descriptor; one that was not running is left alone.
pub record Releases (a b : App) (i : ℕ) : Type 0 where
  pub new : List Effect
  pub recorded : b.effects ≡ a.effects ++ new
  pub connection : Closed (a.peers i).fd new
  pub receiving :
      (Closed (a.peers i).rx_file.fd new × ((b.peers i).rx_file ≡ no_rx))
      ⊎ (((a.peers i).rx_file.active ≡ false) × ((b.peers i).rx_file ≡ (a.peers i).rx_file))
  pub sending :
      (Closed (a.peers i).tx_file.fd new × ((b.peers i).tx_file ≡ no_tx))
      ⊎ (((a.peers i).tx_file.active ≡ false) × ((b.peers i).tx_file ≡ (a.peers i).tx_file))

close_fd-Closed : (fd : Option ℕ) → Closed fd (close_fd fd)
unfolding Closed
close_fd-Closed none = tt
close_fd-Closed (some fd) = mem-cons.1 (Or.inl refl)

close_peer-Closed : (fd : Option ℕ) → Closed fd (close_peer fd)
unfolding Closed
close_peer-Closed none = tt
close_peer-Closed (some fd) = mem-cons.1 (Or.inr (mem-cons.1 (Or.inl refl)))

Closed-left : (fd : Option ℕ) (es fs : List Effect) → Closed fd es → Closed fd (es ++ fs)
unfolding Closed
Closed-left none es fs h = tt
Closed-left (some fd) es fs h = mem-append.1 (Or.inl h)

Closed-right : (fd : Option ℕ) (es fs : List Effect) → Closed fd fs → Closed fd (es ++ fs)
unfolding Closed
Closed-right none es fs h = tt
Closed-right (some fd) es fs h = mem-append.1 (Or.inr h)

-- A running transfer is closed and reset, by the tests of the code.
rx-released :
    (dir : Option ℕ) (f : FileRx) (es fs : List Effect)
    → (Closed f.fd (es ++ (drop_rx dir f ++ fs)) × ((if f.active then no_rx else f) ≡ no_rx))
      ⊎ ((f.active ≡ false) × ((if f.active then no_rx else f) ≡ f))
rx-released dir f es fs = elim (Bool-cases f.active) [
  | inl on ↦ rw on (
      inl (
        Closed-right f.fd es _
            (Closed-left f.fd _ fs (Closed-left f.fd (close_fd f.fd) _ (close_fd-Closed f.fd))),
        refl,
      ))
  | inr off ↦ rw off (inr (refl, refl))
]

tx-released :
    (f : FileTx) (es fs : List Effect)
    → (Closed f.fd (es ++ (fs ++ drop_tx f)) × ((if f.active then no_tx else f) ≡ no_tx))
      ⊎ ((f.active ≡ false) × ((if f.active then no_tx else f) ≡ f))
tx-released f es fs = elim (Bool-cases f.active) [
  | inl on ↦
      rw on (inl (Closed-right f.fd es _ (Closed-right f.fd fs _ (close_fd-Closed f.fd)), refl))
  | inr off ↦ rw off (inr (refl, refl))
]

abbrev ended : ℕ → App → App
ended i a = (settle PeerState.idle i (action_cleanup i a)).0

cleanup-Releases : (i : ℕ) (a : App) → Releases a (ended i a) i
unfolding action_cleanup cleaned
cleanup-Releases i a =
    let p = a.peers i in
    let q = record (cleaned p) { state = PeerState.idle } in
    let rs = drop_rx a.downloads_dir_fd p.rx_file in
    let same : (ended i a).peers i ≡ q = ground arith in
    record {
      new = close_peer p.fd ++ (rs ++ drop_tx p.tx_file);
      recorded = refl;
      connection = Closed-left p.fd (close_peer p.fd) _ (close_peer-Closed p.fd);
      receiving =
          rw same (rx-released a.downloads_dir_fd p.rx_file (close_peer p.fd) (drop_tx p.tx_file));
      sending = rw same (tx-released p.tx_file (close_peer p.fd) rs);
    }

is_cleanup : Action → Bool
is_cleanup Action.cleanup = true
is_cleanup _ = false

ends_clean : Transition → Bool
unfolding is_cleanup
ends_clean t = not (state_code t.to == 0) || is_cleanup t.action

table_ends_clean : all_rows ends_clean transitions ≡ true
unfolding transitions all_rows ends_clean
table_ends_clean = refl

cleanup_of :
    (t : Transition) → ends_clean t ≡ true → t.to ≡ PeerState.idle → t.action ≡ Action.cleanup
unfolding ends_clean
cleanup_of t h e = ground arith

abbrev Cleans : ℕ → App → App × Result (Unit {0}) → Type 0
Cleans i a r =
    (r.1 ≡ ok tt) × ((r.0.peers i).state ≡ PeerState.idle) × IsClean r.0 i × Releases a r.0 i

settled-IsClean : (i : ℕ) (a : App) → IsClean (ended i a) i
unfolding action_cleanup
settled-IsClean i a = ground arith

settled : (i : ℕ) (a : App) → Cleans i a (settle PeerState.idle i (action_cleanup i a))
unfolding action_cleanup
settled i a = (refl, ground arith, settled-IsClean i a, cleanup-Releases i a)

row-Cleans :
    (S : Sodium) (env : Env) (f : ℕ → App → App) (i : ℕ) (a : App) (t : Transition)
    → t.action ≡ Action.cleanup
    → t.to ≡ PeerState.idle
    → Cleans i a (apply_row S env f i a (some t))
unfolding run_action
row-Cleans S env f i a t c e = simp (c, e) (settled i a)

-- Every event that leads to the idle state succeeds, and leaves in the slot no descriptor of the
-- connection, no key material, identity, pending decision or buffered data, and no running file
-- transfer; the descriptor of the connection and those of running transfers are closed.
pub idle-IsClean :
    (S : Sodium) (env : Env) (i : ℕ) (a : App) (ev : PeerEvent)
    → next (a.peers i).state ev ≡ some PeerState.idle
    → ((sm_dispatch S env i a ev).1 ≡ ok tt)
      × (((sm_dispatch S env i a ev).0.peers i).state ≡ PeerState.idle)
      × IsClean (sm_dispatch S env i a ev).0 i
      × Releases a (sm_dispatch S env i a ev).0 i
unfolding sm_dispatch dispatch_level
idle-IsClean S env i a ev h =
    let s = (a.peers i).state in
    elim (Option-cases (find s ev transitions)) [
      | inl q ↦
          let e : none ≡ some PeerState.idle = sym (ap target q) ∙ ((table-next s ev).0 ∙ h) in cc
      | inr (t, q) ↦
          let to : t.to ≡ PeerState.idle = ground (arith, find-from s ev q) in
          rw q (
            row-Cleans S env _ i a t
              (cleanup_of t (find_all ends_clean s ev transitions table_ends_clean q) to) to)
    ]
