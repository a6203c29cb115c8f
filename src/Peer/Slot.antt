-- ===== src/Peer/Slot.antt =====
-- Reading the array of slots of struct app_state after a write to it.
use noxtor_cli.Prelude.{ℕ, ◌≡◌, arith}
use noxtor_cli.Peer.Types.{Peer, App, set_peer}

pub slot_same : (a : App) (i : ℕ) (p : Peer) → (set_peer a i p).peers i ≡ p
slot_same a i p = ground arith
