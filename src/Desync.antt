-- ===== src/Desync.antt =====
-- pkg/spoofdpi/internal/desync: how a Client Hello is cut and sent.
pub mod Split
pub mod Send
pub mod Udp
