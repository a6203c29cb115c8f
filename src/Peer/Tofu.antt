-- ===== src/Peer/Tofu.antt =====
-- Trust on first use: what the user's answer accepts (src/state_machine.c, action_tofu_prompt and
-- action_tofu_accept; src/stdin_handler.c, tofu_user_response).
use noxtor_cli.Prelude.{ℕ, ◌≡◌, false, Option, some, arith}
use noxtor_cli.Common.{ok, bytes_eq-eq}
use noxtor_cli.Sodium.{Sodium}
use noxtor_cli.Noise.Cipher.{Session}
use noxtor_cli.Noise.Messages.{Handshake}
use noxtor_cli.Noise.Handshake.{handshake_split}
use noxtor_cli.Peer.Types.{App, Env, Peer}
use noxtor_cli.Peer.Actions.{stale, established}

pub not_stale :
    (p : Peer) (a : App)
    → stale p a ≡ false
    → (p.tofu_epoch ≡ a.tofu_prompt_epoch) × (p.tofu_new_key ≡ a.tofu_prompt_fp)
unfolding stale
not_stale p a h = (ground arith, bytes_eq-eq _ _ (ground arith))

abbrev Accepted : Sodium → Env → ℕ → App → Option Handshake → App → Type 0
Accepted S env i a o a' =
    (hs : Handshake) × (s : Session) × (o ≡ some hs)
    × ((handshake_split S hs).1 ≡ ok s)
    × (a'.peers i ≡ established env (a.peers i) s)
