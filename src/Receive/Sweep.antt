-- ===== src/Receive/Sweep.antt =====
-- The loop over the slots for their timeouts in src/event_loop.c.
use noxtor_cli.Sodium.{Sodium}
use noxtor_cli.Peer.Types.{Peer}
use noxtor_cli.Receive.InTime.{InTime}
