-- ===== src/Tests/Caches.antt =====
-- pkg/spoofdpi/internal/cache on shards of two entries.
use proksitool.Base.{ℕ, ◌≡◌, refl, List, [], ◌∷◌, some, arith, Returns}
use proksitool.Cache.{Key, Options, no_options}
use proksitool.Cache.Entries.{find, remove, has, contains, drop_last, last, Distinct}
use proksitool.Cache.Lru.{Shard, Change, Valid, get, set_key, insert, evict, move_to_front}
use proksitool.Cache.Lru.Stored.{set_key-get, KeptOrEvicted, set_key-others}
use proksitool.Cache.Lru.Sharded.{LruCache, cache_get, cache_set, cache_delete}
use proksitool.Cache.Lru.Sharded.Usable.{Usable, lru_operations-Usable}
use proksitool.Cache.Ttl.{Item, get_item, set_item, cleanup}
use proksitool.Cache.Ttl.Expiry.{set_item-get, cleanup-get}
use proksitool.Trie.Domain.{Name, name_eq}
use proksitool.Trie.Domain.Names.{name_eq_iff}

abbrev key : Key Name
key = record { eq = name_eq; eq_iff = name_eq_iff; bytes = λ n. n }

abbrev a : Name
a = 1 ∷ []

abbrev b : Name
b = 2 ∷ []

abbrev c : Name
c = 3 ∷ []

abbrev full : Shard Name ℕ
full = record { items = a ∷ b ∷ []; list = (a, 10) ∷ (b, 20) ∷ []; capacity = 2 }

full-Valid : Valid key full
unfolding contains has name_eq
full-Valid = record {
  same = λ q. refl;
  distinct = (refl, (refl, tt));
  positive = omega arith;
  bounded = omega arith;
}

evicts_oldest : Change.invalidated (set_key key c 30 no_options full) ≡ (b, 20) ∷ []
unfolding set_key insert evict contains last drop_last name_eq
evicts_oldest = refl

get_protects : Change.invalidated (set_key key c 30 no_options (get key b full).0) ≡ (a, 10) ∷ []
unfolding set_key insert evict get move_to_front contains find remove last drop_last name_eq
get_protects = refl

set_key-get_example : (get key c (Change.shard (set_key key c 30 no_options full))).1 ≡ some 30
unfolding set_key insert contains name_eq
set_key-get_example = set_key-get key c 30 no_options full full-Valid

set_key-others_example :
    KeptOrEvicted key b
      ((get key b full).1)
      ((get key b (Change.shard (set_key key c 30 no_options full))).1)
      (Change.invalidated (set_key key c 30 no_options full))
unfolding name_eq
set_key-others_example = set_key-others key c b 30 no_options full full-Valid refl

abbrev one_shard : LruCache Name ℕ
one_shard = record { shards = full ∷ []; mask = 0 }

lru_operations-Usable_example :
    Returns (λ r. Usable key (r.0)) (cache_get key c one_shard)
    × Returns (λ r. Usable key (r.0)) (cache_set key c 30 no_options one_shard)
    × Returns (λ r. Usable key (r.0)) (cache_delete key c one_shard)
lru_operations-Usable_example =
    lru_operations-Usable key c 30 no_options one_shard
      (record { in_range = omega arith; valid = (full-Valid, tt) })

abbrev lasting : Options
lasting = record no_options { ttl = 5 }

abbrev timed : List (Name × Item ℕ)
timed = (a, record { value = 10; expires_at = 3 }) ∷ (b, record { value = 20; expires_at = 8 }) ∷ []

set_item-get_example : (get_item key c 7 (set_item key c 30 lasting 2 timed).1).0 ≡ some 30
unfolding set_item has name_eq
set_item-get_example = set_item-get key c 30 lasting 2 7 timed

timed-Distinct : Distinct name_eq timed
unfolding has name_eq
timed-Distinct = (refl, (refl, tt))

cleanup-get_example : (get_item key b 6 (cleanup key 4 timed)).0 ≡ (get_item key b 6 timed).0
cleanup-get_example = cleanup-get key b 4 6 timed timed-Distinct (omega arith)
