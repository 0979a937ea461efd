-- ===== src/Cache/Lru/Sharded/Usable.antt =====
-- pkg/spoofdpi/internal/cache/lru_cache.go: a new cache never panics afterwards, and stays bounded.
use proksitool.Base.{
  ℕ, zero, suc, ◌-◌, ◌<◌, ◌≡◌, refl, List, [], ◌∷◌, some, length, lt→leb, replicate, ok, get_elem?,
  set, bit_and, bit_and_le, Returns, length-set, arith, All,
}
use proksitool.Cache.{Options, Key, fnv1a_bytes}
use proksitool.Cache.Entries.{contains, has}
use proksitool.Cache.Lru.{Shard, Valid}
use proksitool.Cache.Lru.Kept.{set_key-Valid, get-Valid, delete-Valid}
use proksitool.Cache.Lru.Sharded.{
  LruCache, new_lru_cache, shard_capacity, shard_of, put_shard, cache_get, cache_set, cache_delete,
  shard_index,
}

module _ {A : Type 0} (P : A → Type 0) where
  All-set : (l : List A) (i : ℕ) (a : A) → P a → All P l → All P (set l i a)
  All-set [] i a p h = tt
  All-set (x ∷ l) zero a p (_, h) = (p, h)
  All-set (x ∷ l) (suc i) a p (y, h) = (y, All-set l i a p h)

  All-get : (l : List A) (i : ℕ) → i < length l → All P l → (a : A) × (get_elem? l i ≡ some a) × P a
  All-get [] i le h = elim le [ ]
  All-get (x ∷ l) zero le (p, _) = (x, refl, p)
  All-get (x ∷ l) (suc i) le (_, h) = All-get l i (omega arith) h

  All-replicate : (n : ℕ) (a : A) → P a → All P (replicate n a)
  All-replicate zero a p = tt
  All-replicate (suc n) a p = (p, All-replicate n a p)

length-replicate : {A : Type 0} (n : ℕ) (a : A) → length (replicate n a) ≡ n
length-replicate zero a = refl
length-replicate (suc n) a = omega (arith, length-replicate n a)

module _ {K V : Type 0} (key : Key K) where
  -- Every shard is well formed, and the mask names shards that exist.
  pub record Usable (c : LruCache K V) : Type 0 where
    pub in_range : LruCache.mask c < length (LruCache.shards c)
    pub valid : All (Valid key) (LruCache.shards c)

  pub found_shard :
      (q : K) (c : LruCache K V)
      → Usable c
      → (s : Shard K V) × (shard_of key q c ≡ ok s) × Valid key s
  unfolding shard_of shard_index
  found_shard q c u =
      let (s, e, v) =
        All-get (Valid key) (LruCache.shards c) (shard_index key q c)
          (omega (
            arith,
            bit_and_le (fnv1a_bytes (Key.bytes key q)) (LruCache.mask c),
            Usable.in_range u,
          ))
          (Usable.valid u) in
      (s, rw e refl, v)

  put_shard-Usable :
      (q : K) (c : LruCache K V) (s : Shard K V)
      → Usable c
      → Valid key s
      → Usable (put_shard key q c s)
  unfolding put_shard
  put_shard-Usable q c s u v = record {
    in_range =
        omega (arith, length-set (LruCache.shards c) (shard_index key q c) s, Usable.in_range u);
    valid = All-set (Valid key) (LruCache.shards c) (shard_index key q c) s v (Usable.valid u);
  }

  -- On a well-formed cache Get, Set and Delete return, whatever the key and the options, and leave
  -- the cache well formed: no index is out of range, and no shard exceeds its capacity.
  pub lru_operations-Usable :
      (q : K) (v : V) (o : Options) (c : LruCache K V)
      → Usable c
      → Returns (λ r. Usable (r.0)) (cache_get key q c)
        × Returns (λ r. Usable (r.0)) (cache_set key q v o c)
        × Returns (λ r. Usable (r.0)) (cache_delete key q c)
  unfolding cache_get cache_set cache_delete
  lru_operations-Usable q v o c u =
      let (s, e, valid) = found_shard q c u in
      rw e (
        put_shard-Usable q c _ u (get-Valid key q s valid),
        put_shard-Usable q c _ u (set_key-Valid key q v o s valid),
        put_shard-Usable q c _ u (delete-Valid key q s valid),
      )

shard_capacity-positive : (total n : ℕ) → 0 < shard_capacity total n
unfolding shard_capacity
shard_capacity-positive total n = ground arith

module _ {K : Type 0} (V : Type 0) (key : Key K) where
  empty_shard-Valid :
      (n : ℕ) → 0 < n → Valid {V = V} key (record { items = []; list = []; capacity = n })
  unfolding contains has
  empty_shard-Valid n pos = record {
    same = λ q. refl;
    distinct = tt;
    positive = pos;
    bounded = omega arith;
  }

  -- A cache made with a number of shards that is a power of two is well formed: every shard is
  -- empty with a capacity of at least one, and the mask names shards that exist.
  pub new_lru_cache-Usable :
      (n total : ℕ)
      → 0 < n
      → bit_and n (n - 1) ≡ 0
      → Returns (Usable {V = V} key) (new_lru_cache n total)
  unfolding new_lru_cache
  new_lru_cache-Usable n total pos pow =
      rw (lt→leb n 0 pos, pow)
        (record {
          in_range = omega (
            arith,
            length-replicate {A = Shard K V} n
                (record { items = []; list = []; capacity = shard_capacity total n }),
            pos,
          );
          valid =
              All-replicate (Valid {V = V} key) n _
                (empty_shard-Valid (shard_capacity total n) (shard_capacity-positive total n));
        })
