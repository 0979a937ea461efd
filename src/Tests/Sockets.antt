-- ===== src/Tests/Sockets.antt =====
-- pkg/dnscrypt/udp_conn_pool.go on one upstream address.
use proksitool.Pool.Interleaved.{
  World, Reach, here, later, dial, shut, sweep, put_back, start, Accounted, pool_sound,
}
use proksitool.Base.{◌<◌, true, ℕ, ◌≡◌, refl, [], ◌∷◌, some, false, arith}
use proksitool.Cache.Entries.{find, last}
use proksitool.Trie.Domain.{Name, name_eq}
use proksitool.Pool.{
  PooledConn, PoolShard, take_conn, put_conn, cleanup_shard, close_shard, split_stale,
}
use proksitool.Pool.Conserved.{Bounded, count, pool_operations-Bounded}

abbrev upstream : Name
upstream = b'd' ∷ b'n' ∷ b's' ∷ []

abbrev conn : ℕ → ℕ → PooledConn
conn c t = record { conn = c; last_used = t }

abbrev shard : PoolShard
shard = (upstream, conn 3 0 ∷ conn 4 20000000000 ∷ []) ∷ []

abbrev full : PoolShard
full = (upstream, conn 3 0 ∷ conn 4 0 ∷ conn 5 0 ∷ conn 6 0 ∷ []) ∷ []

newest_first : (take_conn upstream shard).1 ≡ some 4
unfolding take_conn find last name_eq
newest_first = refl

fifth_is_closed : (put_conn false false 9 upstream (some 7) full).1 ≡ 7 ∷ []
unfolding put_conn find name_eq
fifth_is_closed = refl

stale_is_closed : (cleanup_shard 40000000000 shard).1 ≡ 3 ∷ []
unfolding cleanup_shard split_stale
stale_is_closed = refl

pool_operations-Bounded_example :
    Bounded ((take_conn upstream full).0)
    × Bounded ((put_conn false false 9 upstream (some 7) full).0)
pool_operations-Bounded_example =
    pool_operations-Bounded false false 9 upstream (some 7) full (omega arith, tt)

-- A caller opens a socket, finds the pool open, and puts it back after Close has emptied the shard.
abbrev late_put : World
late_put = record {
  shard = [];
  closed = true;
  swept = true;
  lent = [];
  gone = 5 ∷ [];
  opened = 5 ∷ [];
}

opened_is_lent : 0 < count 5 (5 ∷ [])
unfolding count
opened_is_lent = omega arith

late_put_reached : Reach start late_put
unfolding put_conn close_shard
late_put_reached =
    later (later (later (later here (dial 5)) shut) (sweep refl))
      (put_back false 9 upstream 5 opened_is_lent)

pool_sound_example : Accounted late_put × (late_put.swept ≡ true → late_put.shard ≡ [])
pool_sound_example = pool_sound late_put_reached
