-- ===== src/File.antt =====
-- src/file_transfer.c: how a file is received and stored, and how it is sent.
pub mod Name
pub mod SafeName
pub mod Kept
pub mod Storage
pub mod Receive
pub mod Writes
pub mod Stages
pub mod Transfer
pub mod Incoming
pub mod Announce
pub mod Buffer
pub mod Sending
pub mod Progress
pub mod Parts
pub mod Handing
