-- ===== src/Send/Answers.antt =====
-- What a call of send_segmented_message_to or send_queued_callback (src/stdin_handler.c) may leave,
-- for each result and by what the system answered to its frames.
use noxtor_cli.Prelude.{
  join, ℕ, suc, ◌+◌, ◌%◌, ◌≡◌, ◌≤◌, ◌⊎◌, true, false, List, [], ◌∷◌, ◌++◌, map, none, some, length,
}
use noxtor_cli.Common.{Bytes, Err, Result, ok, err, u32_mod, uint64_max}
use noxtor_cli.Sodium.{Sodium}
use noxtor_cli.Noise.Cipher.{Session, noise_encrypt}
use noxtor_cli.Noise.Transport.{send_all}
use noxtor_cli.Peer.Types.{PeerState, PeerEvent, Peer, App}
use noxtor_cli.Peer.TableLaws.{next}
use noxtor_cli.Peer.Cleanup.{IsClean}
use noxtor_cli.Send.Segmented.{Kernel, text_frame, nul}
use noxtor_cli.Send.Frames.{frames}

-- The slot has a session, and the number of the next frame is that of the next nonce.
pub record InStep (p : Peer) : Type 0 where
  pub current : Session
  pub has_session : p.session ≡ some current
  pub keyed : current.tx.has_key ≡ true
  pub bounded : current.tx.n ≤ uint64_max
  pub paired : p.tx_seq ≡ current.tx.n % u32_mod
  pub running : next p.state PeerEvent.peer_disconnected ≡ some PeerState.idle

-- The k-th writev of the call takes the frame of this number and ciphertext in whole.
unfoldable pub TakesFrame : Kernel → ℕ → ℕ → Bytes → Type 0
TakesFrame os k seq c = os.writev k (length (text_frame seq c)) ≡ some (length (text_frame seq c))

-- The system takes these frames, numbered from `seq` on, one after the other.
unfoldable pub TakesAll : Kernel → ℕ → ℕ → List Bytes → Type 0
TakesAll os k seq [] = Unit {0}
TakesAll os k seq (c ∷ cs) = TakesFrame os k seq c × TakesAll os (suc k) ((seq + 1) % u32_mod) cs

-- It takes all of them but the last, whose write fails or is cut short.
unfoldable pub CutsLast : Kernel → ℕ → ℕ → List Bytes → Type 0
CutsLast os k seq [] = ⊥
CutsLast os k seq (c ∷ cs) =
    ((cs ≡ []) × (¬ TakesFrame os k seq c))
    ⊎ (TakesFrame os k seq c × CutsLast os (suc k) ((seq + 1) % u32_mod) cs)

module _ (S : Sodium) (os : Kernel) (i fd k : ℕ) (a : App) (s : Session) (msg : Bytes) where
  -- The whole message was encrypted in pieces, and the system took every frame of it.
  pub record Complete (b : App) : Type 0 where
    pub texts : List Bytes
    pub cts : List Bytes
    pub in_step : InStep (b.peers i)
    pub whole : join texts ≡ msg
    pub encrypted : send_all S s (map nul texts) ≡ (in_step.current, some cts)
    pub taken : TakesAll os k (a.peers i).tx_seq cts
    pub written : b.effects ≡ a.effects ++ frames fd (a.peers i).tx_seq cts

  -- The system did not take the last frame that was encrypted, and the slot is cut off.
  pub record CutOff (b : App) : Type 0 where
    pub texts : List Bytes
    pub cts : List Bytes
    pub later : Bytes
    pub after : Session
    pub parted : join texts ++ later ≡ msg
    pub encrypted : send_all S s (map nul texts) ≡ (after, some cts)
    pub cut : CutsLast os k (a.peers i).tx_seq cts
    pub stopped : (b.peers i).state ≡ PeerState.idle
    pub clean : IsClean b i

  -- The system took every frame, until a piece was refused by noise_encrypt.
  pub record Unencrypted (b : App) : Type 0 where
    pub texts : List Bytes
    pub cts : List Bytes
    pub text : Bytes
    pub later : Bytes
    pub after : Session
    pub in_step : InStep (b.peers i)
    pub parted : join texts ++ (text ++ later) ≡ msg
    pub encrypted : send_all S s (map nul texts) ≡ (after, some cts)
    pub refused : (noise_encrypt S after (nul text)).1 ≡ none
    pub taken : TakesAll os k (a.peers i).tx_seq cts
    pub written : b.effects ≡ a.effects ++ frames fd (a.peers i).tx_seq cts

  -- What the frames of a message may leave; no other error comes from them.
  unfoldable pub Progress : App × Result (Unit {0}) → Type 0
  Progress (b, ok u) = Complete b
  Progress (b, err Err.io) = CutOff b
  Progress (b, err Err.crypto) = Unencrypted b
  Progress (b, err _) = ⊥

-- How a call may end: refused before its first frame, for a reason and with nothing changed, or as
-- its frames leave the slot. `long` is what NOX_ERR_PROTO says of the message.
unfoldable pub Outcome :
    Sodium → Kernel → Type 0 → ℕ → App → Session → Bytes → App × Result (Unit {0}) → Type 0
Outcome S os long i a s msg (b, err Err.net) = (b ≡ a) × ((a.peers i).fd ≡ none)
Outcome S os long i a s msg (b, err Err.alloc) = (b ≡ a) × (os.buffers ≡ false)
Outcome S os long i a s msg (b, err Err.proto) = (b ≡ a) × long
Outcome S os long i a s msg r =
    (fd : ℕ) × ((a.peers i).fd ≡ some fd) × Progress S os i fd 0 a s msg r
