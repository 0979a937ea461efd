-- ===== src/Registry.antt =====
-- pkg/spoofdpi/internal/netutil/conn_registry.go, and IdleTimeoutConn of conn.go. The connections are a
-- heap, and a pointer is a place in it; a connection of the system is a number, and `closed` lists
-- those that Close was called on. Times are in nanoseconds.
pub mod Idle
pub mod Stored
use proksitool.Base.{
  ℕ, ◌%◌, ◌^◌, ◌+◌, ◌-◌, ◌*◌, ◌/◌, ◌<◌, ◌≤◌, Bool, true, false, not, ◌&&◌, ◌||◌, ◌==◌, List, [],
  ◌∷◌, ◌++◌, map, Option, none, some, ltb, leb, length, get_elem?, set, if◌then◌else◌, Outcome, ok,
  err, panic, out_of_fuel, or_panic, ◌>>=◌,
}
use proksitool.Cache.{Key, no_options}
use proksitool.Cache.Lru.{Shard}
use proksitool.Cache.Lru.Sharded.{
  LruCache, cache_get, cache_set, cache_delete, cache_has, new_lru_cache,
}

-- Store sets the key and both callbacks at once, so `key` is `none` without callbacks.
pub record IdleTimeoutConn (K : Type 0) : Type 0 where
  pub conn : ℕ
  pub key : Option K
  pub timeout : ℕ
  pub last_activity : ℕ
  pub expired_at : ℕ

-- Whether a time is below `Timeout*7/10`, where the product is an int64.
unfoldable pub below_seven_tenths : ℕ → ℕ → Bool
below_seven_tenths left timeout =
    ltb (timeout * 7 % 2 ^ 64) (2 ^ 63) && ltb left (timeout * 7 % 2 ^ 64 / 10)

module _ {K : Type 0} where
  unfoldable pub new_idle_timeout_conn : ℕ → ℕ → ℕ → IdleTimeoutConn K
  new_idle_timeout_conn conn timeout now = record {
    conn = conn;
    key = none;
    timeout = timeout;
    last_activity = now;
    expired_at = if ltb 0 timeout then now + timeout else 0;
  }

  unfoldable pub is_expired : ℕ → IdleTimeoutConn K → Bool
  is_expired now c = not (c.expired_at == 0) && ltb c.expired_at now

  -- The second part of ExtendDeadline, and whether onActivity is called.
  unfoldable pub active : ℕ → IdleTimeoutConn K → Bool
  active now c = ltb 1000000000 (now - c.last_activity)

  unfoldable pub note_activity : ℕ → IdleTimeoutConn K → IdleTimeoutConn K
  note_activity now c =
      if ltb 1000000000 (now - c.last_activity) then record c { last_activity = now } else c

  -- The third part.
  unfoldable pub renew : ℕ → IdleTimeoutConn K → IdleTimeoutConn K
  renew now c =
      if ltb 0 c.timeout
        && ((c.expired_at == 0) || below_seven_tenths (c.expired_at - now) c.timeout)
      then record c { expired_at = now + c.timeout }
      else c

  -- With the result.
  unfoldable pub extend_deadline : ℕ → IdleTimeoutConn K → IdleTimeoutConn K × Bool
  unfolding is_expired note_activity renew
  extend_deadline now c =
      if is_expired now c then (c, false) else (renew now (note_activity now c), true)

pub record Registry (K : Type 0) : Type 0 where
  pub storage : LruCache K ℕ
  pub timeout : ℕ
  pub heap : List (IdleTimeoutConn K)
  pub closed : List ℕ

module _ {K : Type 0} where
  unfoldable pub new_conn_registry : ℕ → ℕ → Outcome Unit (Registry K)
  new_conn_registry capacity timeout = do
    storage ← new_lru_cache 16 capacity
    ok (record { storage = storage; timeout = timeout; heap = []; closed = [] })

  -- onInvalidate, for the entries that a call invalidated; a pointer of the cache is one of the heap.
  unfoldable pub invalidate : List (IdleTimeoutConn K) → List (K × ℕ) → List ℕ
  invalidate heap [] = []
  invalidate heap ((k, p) ∷ l) = elim (get_elem? heap p) [
    | none ↦ invalidate heap l
    | some c ↦ c.conn ∷ invalidate heap l
  ]

module _ {K : Type 0} (key : Key K) where
  -- Store, with the pointer that it returns.
  unfoldable pub store_conn : K → ℕ → ℕ → Registry K → Outcome Unit (Registry K × ℕ)
  store_conn q raw now r = do
    let heap = r.heap ++ (record (new_idle_timeout_conn raw r.timeout now) { key = some q } ∷ [])
    (c, b, out) ← cache_set key q (length r.heap) no_options r.storage
    ok (
      record r { storage = c; heap = heap; closed = r.closed ++ invalidate heap out },
      length r.heap,
    )

  unfoldable pub fetch_conn : K → Registry K → Outcome Unit (Registry K × Option ℕ)
  fetch_conn q r = do (c, p) ← cache_get key q r.storage; ok (record r { storage = c }, p)

  unfoldable pub evict_conn : K → Registry K → Outcome Unit (Registry K)
  evict_conn q r = do
    (c, out) ← cache_delete key q r.storage
    ok (record r { storage = c; closed = r.closed ++ invalidate r.heap out })

  unfoldable pub has_conn : K → Registry K → Outcome Unit Bool
  has_conn q r = cache_has key q r.storage

  unfoldable pub evict_all : List K → Registry K → Outcome Unit (Registry K)
  evict_all [] r = ok r
  evict_all (q ∷ l) r = do t ← evict_conn q r; evict_all l t

  -- The entries that ForEach passes to its function; Go leaves the order within a shard open.
  unfoldable pub entries : List (Shard K ℕ) → List (K × ℕ)
  entries [] = []
  entries (s ∷ l) = Shard.list s ++ entries l

  unfoldable pub close_all : Registry K → Outcome Unit (Registry K)
  close_all r = evict_all (map (λ (e : K × ℕ). e.0) (entries (LruCache.shards r.storage))) r

  unfoldable pub expired_keys : List (IdleTimeoutConn K) → ℕ → List (K × ℕ) → List K
  unfolding is_expired
  expired_keys heap now [] = []
  expired_keys heap now ((q, p) ∷ l) = elim (get_elem? heap p) [
    | none ↦ expired_keys heap now l
    | some c ↦ if is_expired now c then q ∷ expired_keys heap now l else expired_keys heap now l
  ]

  unfoldable pub evict_expired : ℕ → Registry K → Outcome Unit (Registry K)
  evict_expired now r = evict_all (expired_keys r.heap now (entries (LruCache.shards r.storage))) r

  -- onActivity.
  unfoldable pub on_activity : Bool → Option K → Registry K → Outcome Unit (Registry K)
  on_activity true (some q) r = do (t, p) ← fetch_conn q r; ok t
  on_activity _ _ r = ok r

  -- ExtendDeadline of a connection of the registry.
  unfoldable pub extend_conn : ℕ → ℕ → Registry K → Outcome Unit (Registry K × Bool)
  extend_conn now p r = do
    c ← or_panic (get_elem? r.heap p)
    let (d, alive) = extend_deadline now c
    t ← on_activity (alive && active now c) c.key (record r { heap = set r.heap p d })
    ok (t, alive)

  -- Close of a connection: onClose, and then its own connection.
  unfoldable pub on_close : Option K → Registry K → Outcome Unit (Registry K)
  on_close none r = ok r
  on_close (some q) r = evict_conn q r

  unfoldable pub close_conn : ℕ → Registry K → Outcome Unit (Registry K)
  close_conn p r = do
    c ← or_panic (get_elem? r.heap p)
    t ← on_close c.key r
    ok (record t { closed = t.closed ++ (c.conn ∷ []) })
