-- ===== src/Cache/Ttl/Sharded.antt =====
-- pkg/spoofdpi/internal/cache/ttl_cache.go: a key's shard always exists.
use native.Mathlib.Nat.{mod-lt}
use proksitool.Base.{ℕ, ◌<◌, ◌≡◌, refl, List, length, Returns, ok, get_elem?-some, length-set}
use proksitool.Cache.{Options, Key, fnv1a_bytes}
use proksitool.Cache.Ttl.{
  Item, shard_index, get_shard, get_item, set_item, delete_item, ttl_get, ttl_set, ttl_delete,
}

module _ {K V : Type 0} (key : Key K) where
  shard_found :
      (q : K) (c : List (List (K × Item V)))
      → 0 < length c
      → (s : List (K × Item V)) × (get_shard key q c ≡ ok s)
  unfolding get_shard
  shard_found q c pos =
      let (s, e) =
        get_elem?-some c (shard_index key q c) (mod-lt (fnv1a_bytes (Key.bytes key q)) pos) in
      (s, rw e refl)

  -- On a cache with at least one shard Get, Set and Delete return, whatever the key, the options and
  -- the time: no index is out of range. The number of shards stays the same.
  pub ttl_operations-Returns :
      (q : K) (v : V) (o : Options) (now : ℕ) (c : List (List (K × Item V)))
      → 0 < length c
      → Returns (λ r. length (r.1) ≡ length c) (ttl_get key q now c)
        × Returns (λ r. length (r.1) ≡ length c) (ttl_set key q v o now c)
        × Returns (λ d. length d ≡ length c) (ttl_delete key q c)
  unfolding ttl_get ttl_set ttl_delete
  ttl_operations-Returns q v o now c pos =
      let (s, e) = shard_found q c pos in
      rw e (
        length-set c (shard_index key q c) ((get_item key q now s).1),
        length-set c (shard_index key q c) ((set_item key q v o now s).1),
        length-set c (shard_index key q c) (delete_item key q s),
      )
