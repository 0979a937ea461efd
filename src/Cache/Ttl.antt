-- ===== src/Cache/Ttl.antt =====
-- pkg/spoofdpi/internal/cache/ttl_cache.go: a shard of the cache with expiry times, a map of items;
-- the clock is an argument of every operation that reads it, in nanoseconds.
pub mod Expiry
pub mod Sharded
use proksitool.Base.{
  ℕ, ◌+◌, ◌%◌, Bool, true, false, not, ◌&&◌, ◌||◌, ◌==◌, List, [], ◌∷◌, ◌++◌, Option, none, some,
  ltb, length, if◌then◌else◌, replicate, Outcome, ok, panic, or_panic, ◌>>=◌, get_elem?, set, map,
}
use proksitool.Cache.{Options, Key, fnv1a_bytes}
use proksitool.Cache.Entries.{find, remove, has}

-- `ttlCacheItem`.
pub record Item (V : Type 0) : Type 0 where
  pub value : V
  pub expires_at : ℕ

unfoldable pub is_expired : {V : Type 0} → ℕ → Item V → Bool
is_expired now i = not (Item.expires_at i == 0) && ltb (Item.expires_at i) now

module _ {K V : Type 0} (key : Key K) where
  unfoldable pub put : K → Item V → List (K × Item V) → List (K × Item V)
  put q i l = (q, i) ∷ remove (Key.eq key) q l

  unfoldable pub set_item : K → V → Options → ℕ → List (K × Item V) → Bool × List (K × Item V)
  set_item q v o now l =
      if Options.ttl o == 0
      then (false, l)
      else if has (Key.eq key) q l && Options.skip_existing o
      then (false, l)
      else if not (has (Key.eq key) q l) && Options.update_existing_only o
      then (false, l)
      else (true, put q (record { value = v; expires_at = now + Options.ttl o }) l)

  -- The second half of Get, under the write lock: the item may have been replaced since it was read.
  unfoldable pub drop_expired : K → Item V → List (K × Item V) → List (K × Item V)
  drop_expired q i l = elim (find (Key.eq key) q l) [
    | none ↦ l
    | some current ↦
        if Item.expires_at current == Item.expires_at i then remove (Key.eq key) q l else l
  ]

  -- Get with no other operation between its two halves.
  unfoldable pub get_item : K → ℕ → List (K × Item V) → Option V × List (K × Item V)
  get_item q now l = elim (find (Key.eq key) q l) [
    | none ↦ (none, l)
    | some i ↦ if is_expired now i then (none, drop_expired q i l) else (some (Item.value i), l)
  ]

  unfoldable pub delete_item : K → List (K × Item V) → List (K × Item V)
  delete_item q l = remove (Key.eq key) q l

  unfoldable pub has_item : K → ℕ → List (K × Item V) → Bool
  has_item q now l = elim (find (Key.eq key) q l) [ none ↦ false | some i ↦ not (is_expired now i) ]

  -- The loop of ForceCleanup over one shard.
  unfoldable pub cleanup : ℕ → List (K × Item V) → List (K × Item V)
  cleanup now [] = []
  cleanup now ((k, i) ∷ l) =
      let rest = cleanup now l in if is_expired now i then rest else (k, i) ∷ rest

  -- `TTLCache`: its shards.
  unfoldable pub new_ttl_cache : ℕ → Outcome Unit (List (List (K × Item V)))
  new_ttl_cache n = if n == 0 then panic else ok (replicate n [])

  abbrev pub shard_index : K → List (List (K × Item V)) → ℕ
  shard_index q c = fnv1a_bytes (Key.bytes key q) % length c

  unfoldable pub get_shard : K → List (List (K × Item V)) → Outcome Unit (List (K × Item V))
  get_shard q c = or_panic (get_elem? c (shard_index q c))

  unfoldable pub ttl_set :
      K
      → V
      → Options
      → ℕ
      → List (List (K × Item V))
      → Outcome Unit (Bool × List (List (K × Item V)))
  ttl_set q v o now c = do
    s ← get_shard q c
    let (done, t) = set_item q v o now s
    ok (done, set c (shard_index q c) t)

  unfoldable pub ttl_get :
      K → ℕ → List (List (K × Item V)) → Outcome Unit (Option V × List (List (K × Item V)))
  ttl_get q now c = do
    s ← get_shard q c
    let (v, t) = get_item q now s
    ok (v, set c (shard_index q c) t)

  unfoldable pub ttl_delete : K → List (List (K × Item V)) → Outcome Unit (List (List (K × Item V)))
  ttl_delete q c = do s ← get_shard q c; ok (set c (shard_index q c) (delete_item q s))

  unfoldable pub ttl_has : K → ℕ → List (List (K × Item V)) → Outcome Unit Bool
  ttl_has q now c = do s ← get_shard q c; ok (has_item q now s)

  unfoldable pub force_cleanup : ℕ → List (List (K × Item V)) → List (List (K × Item V))
  force_cleanup now c = map (cleanup now) c

  unfoldable pub ttl_size : List (List (K × Item V)) → ℕ
  ttl_size [] = 0
  ttl_size (s ∷ c) = length s + ttl_size c
