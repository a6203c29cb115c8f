-- ===== src/Peer.antt =====
-- src/state_machine.c with include/state_machine.h, and the part of src/stdin_handler.c that
-- answers a TOFU prompt: the connections of the program and their state machine.
pub mod Types
pub mod Table
pub mod Actions
pub mod Dispatch
pub mod TableLaws
pub mod Levels
pub mod Frame
pub mod Cleanup
pub mod Tofu
pub mod Prompt
pub mod Slot
pub mod Quiet
pub mod Buffer
