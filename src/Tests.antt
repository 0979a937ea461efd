-- ===== src/Tests.antt =====
-- Runs at concrete inputs, and each theorem with hypotheses at an input that meets them.
mod Hello
mod Sorting
mod Desync
mod Trie
mod Caches
mod Rules
mod Socks5
mod Sockets
mod Dnscrypt
mod Sniffer
mod Servers
mod Patterns
mod Messages
mod Blocking
mod Registry
