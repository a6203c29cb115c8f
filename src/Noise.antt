-- ===== src/Noise.antt =====
-- src/noise.c and include/noise.h: Noise_XX_25519_ChaChaPoly_BLAKE2b over libsodium.
-- The first four children model the code from the bottom up; the others prove its properties.
pub mod Cipher
pub mod Symmetric
pub mod Messages
pub mod Handshake
pub mod Agreement
pub mod Nonces
pub mod Transport
pub mod Lifecycle
pub mod Traces
