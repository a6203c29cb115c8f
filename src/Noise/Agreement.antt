-- ===== src/Noise/Agreement.antt =====
-- The two ends of an XX handshake (src/noise.c, section 3) stay in step: message by message, and
-- over the whole exchange.
pub mod Primitives
pub mod Messages
pub mod Exchange
