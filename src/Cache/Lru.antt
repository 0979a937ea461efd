-- ===== src/Cache/Lru.antt =====
-- pkg/spoofdpi/internal/cache/lru_cache.go. `items` of a shard is the set of the keys of the Go map,
-- whose values point to the elements of `list`; `onInvalidate` is the list of the entries it got.
pub mod Kept
pub mod Stored
pub mod Sharded
use proksitool.Base.{
  ℕ, ◌<◌, ◌≤◌, ◌≡◌, Bool, true, false, not, ◌&&◌, List, [], ◌∷◌, Option, none, some, ltb, length,
  if◌then◌else◌,
}
use proksitool.Cache.{Options, Key}
use proksitool.Cache.Entries.{find, remove, has, Distinct, contains, erase, drop_last, last}

-- `lruShardNode`.
pub record Shard (K V : Type 0) : Type 0 where
  pub items : List K
  pub list : List (K × V)
  pub capacity : ℕ

-- What a call of Set does: its result, the shard behind it, and the entries invalidated.
pub record Change (K V : Type 0) : Type 0 where
  pub result : Bool
  pub shard : Shard K V
  pub invalidated : List (K × V)

module _ {K V : Type 0} (key : Key K) where
  unfoldable pub move_to_front : K → List (K × V) → List (K × V)
  move_to_front q l = elim (find (Key.eq key) q l) [
    | none ↦ l
    | some v ↦ (q, v) ∷ remove (Key.eq key) q l
  ]

  unfoldable pub get : K → Shard K V → Shard K V × Option V
  get q s =
      if contains (Key.eq key) (Shard.items s) q
      then (record s { list = move_to_front q (Shard.list s) }, find (Key.eq key) q (Shard.list s))
      else (s, none)

  -- The end of Set: the least recently used entry goes when the shard is over its capacity.
  unfoldable pub evict : Shard K V → Shard K V × List (K × V)
  evict s =
      if ltb (Shard.capacity s) (length (Shard.list s))
      then elim (last (Shard.list s)) [
        | none ↦ (s, [])
        | some (k, w) ↦ (
          record s {
            items = erase (Key.eq key) k (Shard.items s);
            list = drop_last (Shard.list s);
          },
          (k, w) ∷ [],
        )
      ]
      else (s, [])

  -- The body of Set on a key that the shard holds, with its entry.
  unfoldable pub overwrite : K → V → Shard K V → Change K V
  overwrite q v s = record {
    result = true;
    shard = record s { list = (q, v) ∷ remove (Key.eq key) q (Shard.list s) };
    invalidated = elim (find (Key.eq key) q (Shard.list s)) [ none ↦ [] | some w ↦ (q, w) ∷ [] ];
  }

  unfoldable pub insert : K → V → Shard K V → Change K V
  insert q v s =
      let (t, out) = evict (record s { items = q ∷ Shard.items s; list = (q, v) ∷ Shard.list s }) in
      record { result = true; shard = t; invalidated = out }

  unfoldable pub refused : Shard K V → Change K V
  refused s = record { result = false; shard = s; invalidated = [] }

  unfoldable pub set_key : K → V → Options → Shard K V → Change K V
  set_key q v o s =
      let found = contains (Key.eq key) (Shard.items s) q in
      if found && Options.skip_existing o
      then refused s
      else if not found && Options.update_existing_only o
      then refused s
      else if found
      then overwrite q v s
      else insert q v s

  unfoldable pub delete : K → Shard K V → Shard K V × List (K × V)
  delete q s =
      if contains (Key.eq key) (Shard.items s) q
      then (
        record s {
          items = erase (Key.eq key) q (Shard.items s);
          list = remove (Key.eq key) q (Shard.list s);
        },
        elim (find (Key.eq key) q (Shard.list s)) [ none ↦ [] | some w ↦ (q, w) ∷ [] ],
      )
      else (s, [])

  unfoldable pub has_key : K → Shard K V → Bool
  has_key q s = contains (Key.eq key) (Shard.items s) q

  -- The map and the list hold the same keys, each once, and no more of them than the capacity.
  pub record Valid (s : Shard K V) : Type 0 where
    pub same : (q : K) → contains (Key.eq key) (Shard.items s) q ≡ has (Key.eq key) q (Shard.list s)
    pub distinct : Distinct (Key.eq key) (Shard.list s)
    pub positive : 0 < Shard.capacity s
    pub bounded : length (Shard.list s) ≤ Shard.capacity s
