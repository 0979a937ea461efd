-- ===== src/Trie.antt =====
-- pkg/spoofdpi/internal/trie: search trees over domain patterns.
pub mod Domain
