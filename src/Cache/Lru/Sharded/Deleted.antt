-- ===== src/Cache/Lru/Sharded/Deleted.antt =====
-- pkg/spoofdpi/internal/cache/lru_cache.go: a Set and then a Delete of one key.
use proksitool.Base.{
  arith, ℕ, ◌≤◌, length, ltb, Option-cases, if_cases, zero, suc, ◌≡◌, refl, ◌∙◌, true, false, List,
  [], ◌∷◌, Option, none, some, ok, or_panic, get_elem?, set, Returns, Bool-cases, inl, inr,
}
use proksitool.Cache.{Key, Options, no_options}
use proksitool.Cache.Entries.{find, last, contains, contains-erase}
use proksitool.Cache.Lru.{
  Shard, evict, refused, Change, set_key, overwrite, insert, delete, has_key, Valid,
}
use proksitool.Cache.Lru.Kept.{set_key-Valid, find-has}
use proksitool.Cache.Lru.Stored.{set_key-listed, cases_Change}
use proksitool.Cache.Lru.Sharded.{
  LruCache, shard_of, put_shard, shard_index, cache_set, cache_delete, cache_has,
}
use proksitool.Cache.Lru.Sharded.Usable.{Usable, found_shard}

get_elem?-set :
    {A : Type 0} (l : List A) (i : ℕ) (a b : A)
    → get_elem? l i ≡ some b
    → get_elem? (set l i a) i ≡ some a
get_elem?-set [] i a b e = cc
get_elem?-set (x ∷ l) zero a b e = refl
get_elem?-set (x ∷ l) (suc i) a b e = get_elem?-set l i a b e

or_panic-ok : {A : Type 0} (o : Option A) (a : A) → or_panic {E = Unit} o ≡ ok a → o ≡ some a
or_panic-ok none a e = cc
or_panic-ok (some b) a e = cc

module _ {K V : Type 0} (key : Key K) where
  set_key-result :
      (q : K) (v : V) (s : Shard K V) → Change.result (set_key key q v no_options s) ≡ true
  unfolding set_key overwrite insert
  set_key-result q v s = elim (Bool-cases (contains (Key.eq key) (Shard.items s) q)) [
    | inl e ↦ rw (e, set_key) refl
    | inr e ↦ rw (e, set_key) refl
  ]

  evict-one : (s : Shard K V) → length ((evict key s).1) ≤ 1
  unfolding evict
  evict-one s =
      if_cases (λ (r : Shard K V × List (K × V)). length (r.1) ≤ 1)
        (ltb (Shard.capacity s) (length (Shard.list s))) _ _
        (λ _. elim (Option-cases (last (Shard.list s))) [
          | inl e ↦ rw e (omega arith)
          | inr ((k, w), e) ↦ rw e (omega arith)
        ])
        (λ _. omega arith)

  -- A Set invalidates one entry at most.
  set_key-one :
      (q : K) (v : V) (o : Options) (s : Shard K V)
      → length (Change.invalidated (set_key key q v o s)) ≤ 1
  unfolding overwrite insert refused
  set_key-one q v o s =
      cases_Change key (λ r. length (Change.invalidated r) ≤ 1) q v o s (omega arith)
        (λ _. elim (Option-cases (find (Key.eq key) q (Shard.list s))) [
          | inl e ↦ rw e (omega arith)
          | inr (w, e) ↦ rw e (omega arith)
        ])
        (λ _. evict-one (record s { items = q ∷ Shard.items s; list = (q, v) ∷ Shard.list s }))

  delete-stored :
      (q : K) (v : V) (s : Shard K V)
      → Valid key s
      → find (Key.eq key) q (Shard.list s) ≡ some v
      → ((delete key q s).1 ≡ (q, v) ∷ []) × (has_key key q ((delete key q s).0) ≡ false)
  unfolding delete has_key
  delete-stored q v s valid h =
      let held : contains (Key.eq key) (Shard.items s) q ≡ true =
        Valid.same valid q ∙ find-has key q v (Shard.list s) h in
      let self : Key.eq key q q ≡ true = (Key.eq_iff key q q).1 refl in
      rw (held, delete, h)
        (
          refl,
          contains-erase (Key.eq key) (Key.eq_iff key) q q (Shard.items s) ∙ rw (held, self) refl,
        )

  put_shard-shard_of :
      (q : K) (c : LruCache K V) (s t : Shard K V)
      → get_elem? (LruCache.shards c) (shard_index key q c) ≡ some s
      → shard_of key q (put_shard key q c t) ≡ ok t
  unfolding shard_of put_shard shard_index
  put_shard-shard_of q c s t e =
      rw (get_elem?-set (LruCache.shards c) (shard_index key q c) t s e) refl

  put_shard-found :
      (q : K) (c : LruCache K V) (s t : Shard K V)
      → shard_of key q c ≡ ok s
      → shard_of key q (put_shard key q c t) ≡ ok t
  unfolding shard_of
  put_shard-found q c s t e = put_shard-shard_of q c s t (or_panic-ok _ s e)

  -- On a well-formed cache a Set invalidates one entry at most, and a Delete of the key that a Set
  -- without options has just written invalidates that value and no other entry, and leaves nothing
  -- under the key.
  pub cache_set-cache_delete :
      (q : K) (v : V) (c : LruCache K V)
      → Usable key c
      → Returns
          (λ t.
            (length (t.2) ≤ 1)
            × Returns
                (λ u. (u.1 ≡ (q, v) ∷ []) × (cache_has key q (u.0) ≡ ok false))
                (cache_delete key q (t.0)))
          (cache_set key q v no_options c)
  unfolding cache_set cache_delete cache_has
  cache_set-cache_delete q v c u =
      let (s, e, valid) = found_shard key q c u in
      let t = Change.shard (set_key key q v no_options s) in
      let stored : find (Key.eq key) q (Shard.list t) ≡ some v =
        set_key-listed key q v no_options s valid ∙ rw (set_key-result q v s) refl in
      let (out, gone) = delete-stored q v t (set_key-Valid key q v no_options s valid) stored in
      let e' = put_shard-found q c s t e in
      rw (e, e', put_shard-found q (put_shard key q c t) t ((delete key q t).0) e')
        (set_key-one q v no_options s, (out, rw gone refl))
