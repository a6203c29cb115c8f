-- ===== src/Receive/Verdict.antt =====
-- How a CTRL frame may leave a slot (src/event_loop.c).
use noxtor_cli.Prelude.{
  ℕ, ◌≤◌, ◌<◌, ◌≡◌, refl, subst, ◌⊎◌, Bool, true, false, ◌||◌, none, some, take, take_all,
  Bool-cases, inl, inr,
}
use noxtor_cli.Common.{Bytes, Result, ok, err}
use noxtor_cli.Sodium.{Sodium}
use noxtor_cli.Noise.Cipher.{Session, CipherState}
use noxtor_cli.Noise.Symmetric.{SymmetricState, symmetric_split}
use noxtor_cli.Noise.Messages.{Handshake}
use noxtor_cli.Noise.Handshake.{handshake_split, handshake_is_complete, split_result, directed}
use noxtor_cli.Peer.Types.{PeerState, App}
use noxtor_cli.Peer.TableLaws.{shaking}
use noxtor_cli.Peer.Cleanup.{IsClean}
use noxtor_cli.Onion.Address.{Ed25519}
use noxtor_cli.Onion.Unique.{pubkey-IsOnion}
use noxtor_cli.Onion.Bound.{Bound}

-- A handshake is running in the slot, for this dialled address.
pub record Live (i : ℕ) (target : Bytes) (hs : Handshake) (a : App) : Type 0 where
  pub on : shaking (a.peers i).state ≡ true
  pub has : (a.peers i).hs ≡ some hs
  pub dialled : (a.peers i).connect_target ≡ target
  pub no_session : (a.peers i).session ≡ none

-- It goes on.
pub record Running (i : ℕ) (target : Bytes) (b : App) : Type 0 where
  pub on : shaking (b.peers i).state ≡ true
  pub current : Handshake
  pub has : (b.peers i).hs ≡ some current
  pub dialled : (b.peers i).connect_target ≡ target
  pub no_session : (b.peers i).session ≡ none
  pub unfinished : current.msg_index < 3

-- The user is asked about the static key of the handshake and the onion whose key signed it.
pub record Asked (E : Ed25519) (i : ℕ) (target : Bytes) (b : App) : Type 0 where
  pub state : (b.peers i).state ≡ PeerState.tofu_pending
  pub current : Handshake
  pub has : (b.peers i).hs ≡ some current
  pub complete : 3 ≤ current.msg_index
  pub payload : Bytes
  pub onion : Bytes
  pub bound : Bound E payload current.rs target onion
  pub shown_key : (b.peers i).tofu_new_key ≡ current.rs
  pub shown_onion : (b.peers i).tofu_onion ≡ onion
  pub unverified : (b.peers i).peer_verified ≡ false
  pub no_session : (b.peers i).session ≡ none

-- The session is with the static key that is stored for the onion, and the onion's key signed it.
pub record Admitted (E : Ed25519) (contact : Bytes → Result (Bytes × Bytes)) (i : ℕ)
    (target : Bytes) (b : App) : Type 0 where
  pub state : (b.peers i).state ≡ PeerState.active
  pub session : Session
  pub has : (b.peers i).session ≡ some session
  pub payload : Bytes
  pub onion : Bytes
  pub bound : Bound E payload session.remote_static target onion
  pub name : Bytes
  pub known : contact onion ≡ ok (name, session.remote_static)
  pub stands_for : (b.peers i).peer_onion ≡ onion
  pub numbered : ((b.peers i).tx_seq ≡ 0) × ((b.peers i).rx_seq ≡ 0)

abbrev pub Ended : ℕ → App → Type 0
Ended i b = ((b.peers i).state ≡ PeerState.idle) × IsClean b i

unfoldable pub Outcome : Ed25519 → (Bytes → Result (Bytes × Bytes)) → ℕ → Bytes → App → Type 0
Outcome E contact i target b =
    Ended i b ⊎ (Running i target b ⊎ (Asked E i target b ⊎ Admitted E contact i target b))

pub take_onion :
    (E : Ed25519) (pl rs target onion : Bytes) → Bound E pl rs target onion → take 62 onion ≡ onion
take_onion E pl rs target onion v =
    subst (λ n. take n onion ≡ onion) (pubkey-IsOnion E onion v.onion_key v.address).long
      (take_all onion)

-- A split gives the session the static key of the other end.
unfoldable pub SameKey : Handshake → Handshake × Result Session → Type 0
SameKey hs (hs', ok s) = s.remote_static ≡ hs.rs
SameKey hs (hs', err e) = Unit {0}

directed_key :
    (b : Bool) (keys : CipherState × CipherState) (rs : Bytes)
    → (directed b keys rs).remote_static ≡ rs
directed_key true (c, d) rs = refl
directed_key false (c, d) rs = refl

split_result-SameKey :
    (hs : Handshake) (r : SymmetricState × Result (CipherState × CipherState))
    → SameKey hs (split_result hs r)
unfolding SameKey
split_result-SameKey hs (ss, ok keys) = directed_key hs.initiator keys hs.rs
split_result-SameKey hs (ss, err e) = tt

pub split-SameKey : (S : Sodium) (hs : Handshake) → SameKey hs (handshake_split S hs)
unfolding handshake_split SameKey
split-SameKey S hs = elim (Bool-cases (hs.split_done || hs.failed)) [
  | inl spent ↦ rw spent tt
  | inr fresh ↦ elim (Bool-cases (handshake_is_complete hs)) [
    | inr early ↦ simp (fresh, early) tt
    | inl complete ↦ simp (fresh, complete) (split_result-SameKey hs (symmetric_split S hs.ss))
  ]
]
