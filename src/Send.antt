-- ===== src/Send.antt =====
-- src/stdin_handler.c: nox_next_chunk_size, send_queued_callback, send_segmented_message and
-- send_segmented_message_to. A message is the bytes before its NUL.
pub mod Chunks
pub mod Segmented
pub mod Frames
pub mod Answers
pub mod OneFrame
pub mod Loop
pub mod InStep
pub mod Delivery
