-- ===== src/Onion.antt =====
-- src/crypto.c and src/network.c: onion addresses, and the signed claim that ties an address to the
-- static key of a handshake.
pub mod Address
pub mod Base32
pub mod Unique
pub mod Claim
pub mod Bound
pub mod Honest
