-- ===== src/Cache/Lru/Sharded.antt =====
-- pkg/spoofdpi/internal/cache/lru_cache.go: the cache of several shards. A call on a key works on
-- the shard that the key's hash names, and `panic` is an index out of range there.
pub mod Usable
pub mod Deleted
use proksitool.Base.{
  ℕ, ◌+◌, ◌-◌, ◌/◌, Bool, not, ◌||◌, ◌==◌, List, [], ◌∷◌, ◌++◌, Option, leb, length, if◌then◌else◌,
  replicate, Outcome, ok, panic, or_panic, ◌>>=◌, get_elem?, set, bit_and,
}
use proksitool.Cache.{Options, Key, fnv1a_bytes}
use proksitool.Cache.Lru.{Shard, Change, get, set_key, delete, has_key}

-- `LRUCache`.
pub record LruCache (K V : Type 0) : Type 0 where
  pub shards : List (Shard K V)
  pub mask : ℕ

unfoldable pub shard_capacity : ℕ → ℕ → ℕ
shard_capacity total n = if leb (total / n) 0 then 1 else total / n

module _ {K V : Type 0} where
  unfoldable pub new_lru_cache : ℕ → ℕ → Outcome Unit (LruCache K V)
  new_lru_cache n total =
      if leb n 0 || not (bit_and n (n - 1) == 0)
      then panic
      else ok (record {
        shards = replicate n (record { items = []; list = []; capacity = shard_capacity total n });
        mask = n - 1;
      })

  unfoldable pub total_len : List (Shard K V) → ℕ
  total_len [] = 0
  total_len (s ∷ c) = length (Shard.list s) + total_len c

  unfoldable pub size : LruCache K V → ℕ
  size c = total_len (LruCache.shards c)

module _ {K V : Type 0} (key : Key K) where
  unfoldable pub shard_index : K → LruCache K V → ℕ
  shard_index q c = bit_and (fnv1a_bytes (Key.bytes key q)) (LruCache.mask c)

  unfoldable pub shard_of : K → LruCache K V → Outcome Unit (Shard K V)
  shard_of q c = or_panic (get_elem? (LruCache.shards c) (shard_index q c))

  unfoldable pub put_shard : K → LruCache K V → Shard K V → LruCache K V
  put_shard q c s = record c { shards = set (LruCache.shards c) (shard_index q c) s }

  unfoldable pub cache_get : K → LruCache K V → Outcome Unit (LruCache K V × Option V)
  cache_get q c = do s ← shard_of q c; let (t, v) = get key q s; ok (put_shard q c t, v)

  -- With the entries that were invalidated.
  unfoldable pub cache_set :
      K → V → Options → LruCache K V → Outcome Unit (LruCache K V × Bool × List (K × V))
  cache_set q v o c = do
    s ← shard_of q c
    let r = set_key key q v o s
    ok (put_shard q c (Change.shard r), Change.result r, Change.invalidated r)

  unfoldable pub cache_delete : K → LruCache K V → Outcome Unit (LruCache K V × List (K × V))
  cache_delete q c = do s ← shard_of q c; let (t, out) = delete key q s; ok (put_shard q c t, out)

  unfoldable pub cache_has : K → LruCache K V → Outcome Unit Bool
  cache_has q c = do s ← shard_of q c; ok (has_key key q s)
