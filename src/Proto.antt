-- ===== src/Proto.antt =====
-- pkg/spoofdpi/internal/proto: the wire formats that the proxy reads.
pub mod Tls
pub mod Socks5
