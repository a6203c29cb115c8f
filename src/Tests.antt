-- ===== src/Tests.antt =====
-- The theorems at concrete inputs.
mod Toy
mod Handshakes
mod Peers
mod Frames
mod Texts
mod Files
mod Onions
mod Chats
