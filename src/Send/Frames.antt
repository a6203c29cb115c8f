-- ===== src/Send/Frames.antt =====
-- The frames that src/stdin_handler.c writes for a message, and the slot that it writes them for.
use noxtor_cli.Prelude.{ℕ, ◌+◌, ◌%◌, ◌≡◌, refl, ap, ◌∙◌, List, [], ◌∷◌, none, some}
use noxtor_cli.Common.{Bytes, u32_mod}
use noxtor_cli.Noise.Cipher.{Session}
use noxtor_cli.Peer.Types.{Peer, App, Effect, write, set_peer}
use noxtor_cli.Peer.Slot.{slot_same}
use noxtor_cli.Send.Segmented.{text_frame, connected}

-- The writes of the ciphertexts of a message, numbered from `seq` on.
unfoldable pub frames : ℕ → ℕ → List Bytes → List Effect
frames fd seq [] = []
frames fd seq (c ∷ cs) = write fd (text_frame seq c) ∷ frames fd ((seq + 1) % u32_mod) cs

-- A second write to the slot finds the first.
pub slot_twice :
    (a : App) (i : ℕ) (p : Peer) (t : ℕ)
    → (set_peer (set_peer a i p) i (record ((set_peer a i p).peers i) {
      tx_seq = (((set_peer a i p).peers i).tx_seq + 1) % u32_mod;
      last_active = t;
    })).peers
        i
      ≡ record p { tx_seq = (p.tx_seq + 1) % u32_mod; last_active = t }
slot_twice a i p t =
    slot_same (set_peer a i p) i _
    ∙ ap {A = Peer} {B = Peer}
        (λ q. record q { tx_seq = (q.tx_seq + 1) % u32_mod; last_active = t }) (slot_same a i p)

pub connected_on :
    (p : Peer) (fd : ℕ) (s : Session)
    → p.fd ≡ some fd
    → p.session ≡ some s
    → connected p ≡ some (fd, s)
connected_on p fd s on e = rw (on, e) refl

pub connected_off : (p : Peer) → p.fd ≡ none → connected p ≡ none
connected_off p off = rw off refl
