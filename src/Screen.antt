-- ===== src/Screen.antt =====
-- src/frontend.c: what of a peer's text reaches the terminal.
pub mod Strip
pub mod Clean
