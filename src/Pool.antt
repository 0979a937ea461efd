-- ===== src/Pool.antt =====
-- pkg/dnscrypt/udp_conn_pool.go: idle UDP sockets, kept for each upstream address. A socket is a
-- number; what an operation closes is part of its result. A shard's mutex makes the body of an
-- operation one step; `closed` is read twice by Put, so it is two arguments there.
pub mod Conserved
pub mod Interleaved
use proksitool.Base.{
  ℕ, ◌+◌, ◌-◌, ◌*◌, ◌%◌, ◌^◌, Bool, true, false, List, [], ◌∷◌, ◌++◌, map, Option, none, some, ltb,
  leb, length, if◌then◌else◌, set, replicate,
}
use proksitool.Cache.Entries.{find, remove, drop_last, last}
use proksitool.Trie.Domain.{Name, name_eq}

abbrev pub max_conns_per_addr : ℕ
max_conns_per_addr = 4

-- Nanoseconds.
abbrev pub max_idle_time : ℕ
max_idle_time = 30000000000

abbrev pub pool_shards : ℕ
pool_shards = 64

pub record PooledConn : Type 0 where
  pub conn : ℕ
  pub last_used : ℕ

-- `poolShard`: its map `conns`.
abbrev pub PoolShard : Type 0
PoolShard = List (Name × List PooledConn)

-- `UDPConnPool`.
pub record Pool : Type 0 where
  pub shards : List PoolShard
  pub closed : Bool

unfoldable pub new_pool : Pool
new_pool = record { shards = replicate pool_shards []; closed = false }

-- The loop of getShard, from a hash on.
unfoldable pub hash_from : ℕ → Name → ℕ
hash_from h [] = h
hash_from h (b ∷ addr) = hash_from ((h * 31 + b) % 2 ^ 32) addr

unfoldable pub shard_number : Name → ℕ
shard_number addr = hash_from 0 addr % pool_shards

-- Reading a missing key of a Go map gives the empty slice.
abbrev pub or_empty : Option (List PooledConn) → List PooledConn
or_empty none = []
or_empty (some l) = l

abbrev pub conns_at : Name → PoolShard → List PooledConn
conns_at addr s = or_empty (find name_eq addr s)

unfoldable pub write_conns : Name → List PooledConn → PoolShard → PoolShard
write_conns addr l s = (addr, l) ∷ remove name_eq addr s

-- Get under the lock; without a socket the caller dials.
unfoldable pub take_conn : Name → PoolShard → PoolShard × Option ℕ
take_conn addr s = elim (last (conns_at addr s)) [
  | none ↦ (s, none)
  | some pc ↦ (write_conns addr (drop_last (conns_at addr s)) s, some (PooledConn.conn pc))
]

-- Put of a socket, and the sockets that it closes.
unfoldable pub put_conn : Bool → Bool → ℕ → Name → Option ℕ → PoolShard → PoolShard × List ℕ
put_conn closed_before closed now addr none s = (s, [])
put_conn closed_before closed now addr (some c) s =
    if closed_before
    then (s, c ∷ [])
    else if closed
    then (s, c ∷ [])
    else if leb max_conns_per_addr (length (conns_at addr s))
    then (s, c ∷ [])
    else (write_conns addr (conns_at addr s ++ (record { conn = c; last_used = now } ∷ [])) s, [])

-- The inner loop of cleanupStale: the active sockets, and the closed ones.
unfoldable pub split_stale : ℕ → List PooledConn → List PooledConn × List ℕ
split_stale now [] = ([], [])
split_stale now (pc ∷ l) =
    let (active, closed) = split_stale now l in
    if ltb max_idle_time (now - PooledConn.last_used pc)
    then (active, PooledConn.conn pc ∷ closed)
    else (pc ∷ active, closed)

-- An address without active sockets is deleted.
unfoldable pub keep_active : Name → List PooledConn → PoolShard → PoolShard
keep_active addr [] s = s
keep_active addr (pc ∷ l) s = (addr, pc ∷ l) ∷ s

unfoldable pub cleanup_shard : ℕ → PoolShard → PoolShard × List ℕ
cleanup_shard now [] = ([], [])
cleanup_shard now ((addr, l) ∷ s) =
    let (active, closed) = split_stale now l in
    let (rest, closed') = cleanup_shard now s in (keep_active addr active rest, closed ++ closed')

unfoldable pub conns_of : List PooledConn → List ℕ
conns_of [] = []
conns_of (pc ∷ l) = PooledConn.conn pc ∷ conns_of l

-- The loops of Close over one shard: it is left empty.
unfoldable pub close_shard : PoolShard → PoolShard × List ℕ
close_shard [] = ([], [])
close_shard ((addr, l) ∷ s) = let (rest, closed) = close_shard s in (rest, conns_of l ++ closed)

unfoldable pub close_shards : List PoolShard → List PoolShard × List ℕ
close_shards [] = ([], [])
close_shards (s ∷ shards) =
    let (t, closed) = close_shard s in
    let (rest, closed') = close_shards shards in (t ∷ rest, closed ++ closed')

unfoldable pub close : Pool → Pool × List ℕ
close p =
    let (shards, closed) = close_shards (Pool.shards p) in
    (record { shards = shards; closed = true }, closed)

-- Stats over one shard: the sockets and the addresses.
unfoldable pub shard_stats : PoolShard → ℕ × ℕ
shard_stats [] = (0, 0)
shard_stats ((addr, l) ∷ s) = let (conns, addrs) = shard_stats s in (length l + conns, 1 + addrs)

unfoldable pub stats : List PoolShard → ℕ × ℕ
stats [] = (0, 0)
stats (s ∷ shards) =
    let (conns, addrs) = shard_stats s in
    let (conns', addrs') = stats shards in (conns + conns', addrs + addrs')
