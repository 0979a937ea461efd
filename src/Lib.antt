-- ===== src/Lib.antt =====
-- proksitool: the parts of its network tools that decide, as definitions, with what makes them right.
--
-- The program is a window (cmd) that starts several engines. Two of them are written here: SpoofDPI
-- (pkg/spoofdpi), a local proxy that hides the server name of a TLS connection from a filter on the
-- way, and dnscrypt (pkg/dnscrypt), a DNS proxy. SpoofDPI takes a request (proto), chooses a rule for
-- its name or address (rule, on the tries of trie), opens the connection, and sends the first TLS
-- message in pieces and behind fakes, as the rule says (desync); its connections and addresses are
-- remembered in caches (cache).
--
-- Files and sources:
-- - Base: shared names, Boolean tests, lists by native numbers, integers, and `Outcome`, the result of
--   code that fails by an error or a panic.
-- - Proto/Tls: pkg/spoofdpi/internal/proto/tls.go. A record is its header and its bytes;
--   `extract_sni_offset` is ExtractSNIOffset with every index checked, `panic` where Go would panic.
--   The extension loop runs on fuel, the length of the message: each round but the last moves forward
--   by four bytes at least.
-- - Proto/Socks5: pkg/spoofdpi/internal/proto/socks5.go. A connection is the bytes still to be read.
-- - Desync/Split, Desync/Send, Desync/Udp: pkg/spoofdpi/internal/desync/tls.go and udp.go. The split
--   modes give segments; sending them goes through `Net`, a record of what the socket and the packet
--   writer answer, and `World`, what they were given. The loop of splitChunks runs on fuel, the length
--   of the message, since a chunk is never empty. A slice out of range panics, and the places of the
--   plans are ints of 64 bits.
-- - Trie/Domain: pkg/spoofdpi/internal/trie/domain.go. The nodes are a tree; a Go map is an association
--   list. The stored patterns (Stored) are the abstract view, and `Matches` says what a pattern matches.
-- - Cache, Cache/Lru, Cache/Ttl: pkg/spoofdpi/internal/cache. A shard is its map and its list;
--   Cache/Lru/Sharded chooses the shard by the hash. The clock is an argument of the TTL cache.
-- - Rules: pkg/spoofdpi/internal/rule, on the domain trie; the CIDR trie is a parameter.
-- - Registry: pkg/spoofdpi/internal/netutil/conn_registry.go and IdleTimeoutConn of conn.go, on Cache/Lru/Sharded.
--   The cache holds pointers into a heap of connections, since a connection changes while it is held.
-- - Sniffer: pkg/spoofdpi/internal/packet/sniffer.go, the hop estimate.
-- - Pool: pkg/dnscrypt/udp_conn_pool.go, idle sockets by address; Pool/Interleaved has the operations of
--   several callers on one shard as steps.
-- - Dnscrypt/Times, Padding, Estimator: pkg/dnscrypt/time_ranges.go, the padding of crypto.go, and
--   estimators.go.
-- - Dnscrypt/Framing: PrefixWithSize and ReadPrefixed of pkg/dnscrypt/common.go. A connection is the list
--   of what its Reads give, and the loop goes along that list.
-- - Dnscrypt/Keys, Dnscrypt/Messages: ComputeSharedKey, Encrypt and Decrypt of pkg/dnscrypt/crypto.go;
--   a slice of Decrypt that is out of range panics.
-- - Dnscrypt/Resumption: pkg/dnscrypt/pq.go, with the ticket of a server as a state of its own.
-- - Dnscrypt/Certs: the loop of pkg/dnscrypt/dnscrypt_certs.go over the answers of a server.
-- - Patterns: pkg/dnscrypt/pattern_matcher.go, the rules for names.
-- - Dnscrypt/Answers: pkg/dnscrypt/plugin_cache.go, and of dnsutils.go the key, the TTLs and the checks of a
--   response. `read_cache` and `write_cache` are the Eval of the reader and of the writer; a message is what
--   these functions read of dns.Msg.
-- - Blocking: the Eval functions and `check` of pkg/dnscrypt/plugin_block_name.go and plugin_allow_name.go on
--   the rules of Patterns, and NormalizeQName of dnsutils.go.
-- - Servers: pkg/dnscrypt/serversInfo.go. `get_one` is getOne with its draws as arguments; WP2's loop runs
--   over the draws to come, and ends at the first that names a second server. Servers/Refresh has the
--   three functions that guard a refresh, and Servers/Refresh/Claims the callers as steps,
--   with the refreshes that ended.
-- - Tests: runs at fixed inputs, and each theorem with hypotheses at an input that meets them.
--
-- A byte, a length and a time are numbers; a field of fixed width wraps where the source converts to
-- it. The caches' mutexes make the body of an operation one step; where a lock is given up between two
-- halves, as in Get of the TTL cache, the second half is a definition of its own. The sum of a time
-- and a TTL is taken not to overflow.
--
-- Parameters, as code outside the repository: random draws, sorting, the socket and packet
-- writer, strconv.Atoi, To4 of net.IP, the CIDR trie on the patricia package, the moving average and float64,
-- the crit-bit trie, the sieve cache, filepath.Match, ciphers, hashes, signatures and the multiplication of points;
-- so is the mask of the split mode, which genPatternMask draws. Not modelled: servers, goroutines and
-- timers, configuration files, the wire format of DNS messages, packet capture, logging, the window, and the
-- copies of other projects (wireproxy, ndisapi, the vendored packages, addrselect).
pub mod Base
pub mod Proto
pub mod Desync
pub mod Trie
pub mod Cache
pub mod Rules
pub mod Pool
pub mod Dnscrypt
pub mod Sniffer
pub mod Servers
mod Tests
pub mod Patterns
pub mod Blocking
pub mod Registry
