-- ===== src/Receive.antt =====
-- src/event_loop.c, process_peer_frames: how the bytes of a connection become frames.
pub mod Framing
pub mod Stream
pub mod Pieces
pub mod Room
pub mod Control
pub mod Frames
pub mod Texts
pub mod Conversation
pub mod Feed
pub mod Buffer
pub mod ControlBuffer
pub mod Rounds
pub mod Timeouts
pub mod InTime
pub mod Deadlines
pub mod Sweep
pub mod Shaking
pub mod Verdict
pub mod Claimed
pub mod Admission
