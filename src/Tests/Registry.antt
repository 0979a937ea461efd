-- ===== src/Tests/Registry.antt =====
-- pkg/spoofdpi/internal/netutil/conn_registry.go: two connections in a shard, and a third.
use proksitool.Base.{
  ◌<◌, ℕ, ◌+◌, ◌*◌, ◌/◌, ◌≤◌, ◌≡◌, refl, true, false, not, [], ◌∷◌, ◌++◌, some, arith, ok, Returns,
}
use proksitool.Cache.{Key}
use proksitool.Cache.Entries.{has, contains}
use proksitool.Cache.Lru.{Shard, Valid}
use proksitool.Cache.Lru.Sharded.Usable.{Usable}
use proksitool.Trie.Domain.{Name, name_eq}
use proksitool.Trie.Domain.Names.{name_eq_iff}
use proksitool.Registry.{
  IdleTimeoutConn, Registry, is_expired, extend_deadline, store_conn, evict_conn, has_conn,
  close_conn,
}
use proksitool.Registry.Idle.{extend_deadline-lives}
use proksitool.Registry.Stored.{Gone, ClosesOne, store_conn-evict_conn, store_conn-close_conn}

abbrev key : Key Name
key = record { eq = name_eq; eq_iff = name_eq_iff; bytes = λ n. n }

abbrev first_key : Name
first_key = 1 ∷ []

abbrev second_key : Name
second_key = 2 ∷ []

abbrev third_key : Name
third_key = 3 ∷ []

abbrev first_conn : IdleTimeoutConn Name
first_conn = record {
  conn = 7;
  key = some first_key;
  timeout = 100;
  last_activity = 0;
  expired_at = 100;
}

abbrev second_conn : IdleTimeoutConn Name
second_conn = record {
  conn = 8;
  key = some second_key;
  timeout = 100;
  last_activity = 0;
  expired_at = 100;
}

abbrev two_held : Shard Name ℕ
two_held = record {
  items = first_key ∷ second_key ∷ [];
  list = (first_key, 0) ∷ (second_key, 1) ∷ [];
  capacity = 2;
}

two_held-Valid : Valid key two_held
unfolding contains has name_eq
two_held-Valid = record {
  same = λ q. refl;
  distinct = (refl, (refl, tt));
  positive = omega arith;
  bounded = omega arith;
}

abbrev registry : Registry Name
registry = record {
  storage = record { shards = two_held ∷ []; mask = 0 };
  timeout = 100;
  heap = first_conn ∷ second_conn ∷ [];
  closed = [];
}

registry-Usable : Usable key registry.storage
registry-Usable = record { in_range = omega arith; valid = (two_held-Valid, tt) }

expires_late : (is_expired 100 first_conn ≡ false) × (is_expired 101 first_conn ≡ true)
unfolding is_expired
expires_late = (refl, refl)

store_conn-evict_conn_example :
    Returns
      (λ t.
        ClosesOne key registry (t.0)
        × Returns (Gone key third_key 9 (t.0)) (evict_conn key third_key (t.0)))
      (store_conn key third_key 9 50 registry)
store_conn-evict_conn_example = store_conn-evict_conn key third_key 9 50 registry registry-Usable

store_conn-close_conn_example :
    Returns
      (λ t.
        Returns
          (λ u.
            (u.closed ≡ (t.0).closed ++ (9 ∷ []) ++ (8 ∷ []))
            × (has_conn key second_key u ≡ ok false))
          (close_conn key 1 (t.0)))
      (store_conn key second_key 9 50 registry)
store_conn-close_conn_example =
    store_conn-close_conn key second_key 9 50 1 second_conn registry registry-Usable refl refl

extend_deadline-lives_example :
    ((extend_deadline 50 first_conn).1 ≡ not (is_expired 50 first_conn))
    × (is_expired 50 first_conn ≡ true → (extend_deadline 50 first_conn).0 ≡ first_conn)
    × (is_expired 50 first_conn ≡ false
        → (later : ℕ) → later ≤ 50 + 100 * 7 / 10
        → is_expired later (extend_deadline 50 first_conn).0 ≡ false)
    × (0 < 100 → 100 ≤ ((extend_deadline 50 first_conn).0).expired_at)
extend_deadline-lives_example = extend_deadline-lives 50 first_conn (omega arith) (omega arith)
