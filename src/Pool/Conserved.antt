-- ===== src/Pool/Conserved.antt =====
-- pkg/dnscrypt/udp_conn_pool.go: no socket is lost or held twice, and no address holds more than four.
use proksitool.Base.{
  ℕ, ◌+◌, ◌≤◌, ◌≡◌, refl, ap, inl, inr, Bool, List, [], ◌∷◌, ◌++◌, Option, none, some, leb, ◌==◌,
  length, All, if◌then◌else◌, arith, if_cases, Option-cases, Bool-cases, length-append,
}
use proksitool.Cache.Entries.{find, remove, drop_last, last, length-drop_last}
use proksitool.Trie.Domain.{Name, name_eq}
use proksitool.Pool.{
  PooledConn, PoolShard, conns_at, write_conns, take_conn, put_conn, split_stale, keep_active,
  cleanup_shard, conns_of, close_shard, max_conns_per_addr,
}

-- How often a socket stands in a list.
unfoldable pub count : ℕ → List ℕ → ℕ
count c [] = 0
count c (d ∷ l) = (if d == c then 1 else 0) + count c l

abbrev pub option_list : Option ℕ → List ℕ
option_list none = []
option_list (some c) = c ∷ []

pub count-append : (c : ℕ) (l m : List ℕ) → count c (l ++ m) ≡ count c l + count c m
unfolding count
count-append c [] m = omega arith
count-append c (d ∷ l) m = omega (arith, count-append c l m)

-- How often a shard holds a socket.
abbrev pub held : ℕ → PoolShard → ℕ
held c [] = 0
held c ((addr, l) ∷ s) = count c (conns_of l) + held c s

held-remove :
    (c : ℕ) (addr : Name) (s : PoolShard)
    → held c s ≡ count c (conns_of (conns_at addr s)) + held c (remove name_eq addr s)
unfolding find remove count conns_of
held-remove c addr [] = omega arith
held-remove c addr ((a, l) ∷ s) = elim (Bool-cases (name_eq a addr)) [
  | inl e ↦ rw e refl
  | inr e ↦ rw e (omega (arith, held-remove c addr s))
]

conns_of-append : (l m : List PooledConn) → conns_of (l ++ m) ≡ conns_of l ++ conns_of m
unfolding conns_of
conns_of-append [] m = refl
conns_of-append (pc ∷ l) m = rw (conns_of-append l m) refl

drop_last-count :
    (c : ℕ) (l : List PooledConn) (pc : PooledConn)
    → last l ≡ some pc
    → count c (conns_of l) ≡ count c (conns_of (drop_last l)) + count c (PooledConn.conn pc ∷ [])
unfolding drop_last last conns_of count
drop_last-count c [] pc e = cc
drop_last-count c (x ∷ []) pc e = ground (arith, e)
drop_last-count c (x ∷ y ∷ l) pc e = omega (arith, drop_last-count c (y ∷ l) pc e)

-- Get hands out a socket that the shard held, and the shard holds it once less; of every other
-- socket it holds as many as before.
pub take_conn-held :
    (c : ℕ) (addr : Name) (s : PoolShard)
    → held c s ≡ held c ((take_conn addr s).0) + count c (option_list ((take_conn addr s).1))
unfolding take_conn write_conns count
take_conn-held c addr s = elim (Option-cases (last (conns_at addr s))) [
  | inl e ↦ rw (e, take_conn) (omega arith)
  | inr (pc, e) ↦
      rw (e, take_conn)
        (omega (arith, held-remove c addr s, drop_last-count c (conns_at addr s) pc e))
]

-- Put either keeps the socket given or closes it, and touches no other.
pub put_conn-held :
    (closed_before closed : Bool) (now c : ℕ) (addr : Name) (o : Option ℕ) (s : PoolShard)
    → held c s + count c (option_list o)
      ≡ held c ((put_conn closed_before closed now addr o s).0)
        + count c ((put_conn closed_before closed now addr o s).1)
unfolding put_conn write_conns count conns_of
put_conn-held closed_before closed now c addr none s = refl
put_conn-held closed_before closed now c addr (some d) s =
    if_cases P closed_before _ _ (λ h. refl)
      (λ h.
        if_cases P closed _ _ (λ h. refl)
          (λ h.
            if_cases P (leb max_conns_per_addr (length (conns_at addr s))) _ _ (λ h. refl)
              (λ h. omega (
                arith,
                held-remove c addr s,
                count-append c (conns_of (conns_at addr s)) (d ∷ []),
                ap (count c)
                    (conns_of-append (conns_at addr s) (record { conn = d; last_used = now } ∷ [])),
              ))))
  where
    P : PoolShard × List ℕ → Type 0
    P r = held c s + count c (d ∷ []) ≡ held c (r.0) + count c (r.1)

split_stale-count :
    (now c : ℕ) (l : List PooledConn)
    → count c (conns_of l)
      ≡ count c (conns_of ((split_stale now l).0)) + count c ((split_stale now l).1)
unfolding split_stale conns_of count
split_stale-count now c [] = omega arith
split_stale-count now c (pc ∷ l) = ground (arith, split_stale-count now c l)

held-keep_active :
    (c : ℕ) (addr : Name) (l : List PooledConn) (s : PoolShard)
    → held c (keep_active addr l s) ≡ count c (conns_of l) + held c s
unfolding keep_active count conns_of
held-keep_active c addr [] s = omega arith
held-keep_active c addr (pc ∷ l) s = refl

-- Every socket of a shard is either kept by a cleanup or closed by it.
pub cleanup_shard-held :
    (now c : ℕ) (s : PoolShard)
    → held c s ≡ held c ((cleanup_shard now s).0) + count c ((cleanup_shard now s).1)
unfolding cleanup_shard count
cleanup_shard-held now c [] = omega arith
cleanup_shard-held now c ((addr, l) ∷ s) = omega (
  arith,
  cleanup_shard-held now c s,
  split_stale-count now c l,
  held-keep_active c addr ((split_stale now l).0) ((cleanup_shard now s).0),
  count-append c ((split_stale now l).1) ((cleanup_shard now s).1),
)

-- Closing a shard leaves it empty and closes every socket that it held, each as often as it held it.
pub close_shard-held :
    (c : ℕ) (s : PoolShard) → ((close_shard s).0 ≡ []) × (held c s ≡ count c ((close_shard s).1))
unfolding close_shard count
close_shard-held c [] = (refl, refl)
close_shard-held c ((addr, l) ∷ s) = (
  (close_shard-held c s).0,
  omega (arith, (close_shard-held c s).1, count-append c (conns_of l) ((close_shard s).1)),
)

-- No address holds more sockets than the limit.
abbrev pub Bounded : PoolShard → Type 0
Bounded s = All (λ (e : Name × List PooledConn). length (e.1) ≤ max_conns_per_addr) s

remove-Bounded : (addr : Name) (s : PoolShard) → Bounded s → Bounded (remove name_eq addr s)
unfolding remove
remove-Bounded addr [] b = tt
remove-Bounded addr ((a, l) ∷ s) (h, b) = elim (Bool-cases (name_eq a addr)) [
  | inl e ↦ rw e b
  | inr e ↦ rw e (h, remove-Bounded addr s b)
]

conns_at-Bounded :
    (addr : Name) (s : PoolShard) → Bounded s → length (conns_at addr s) ≤ max_conns_per_addr
unfolding find
conns_at-Bounded addr [] b = omega arith
conns_at-Bounded addr ((a, l) ∷ s) (h, b) = elim (Bool-cases (name_eq a addr)) [
  | inl e ↦ rw e h
  | inr e ↦ rw e (conns_at-Bounded addr s b)
]

take_conn-Bounded : (addr : Name) (s : PoolShard) → Bounded s → Bounded ((take_conn addr s).0)
unfolding take_conn write_conns
take_conn-Bounded addr s b = elim (Option-cases (last (conns_at addr s))) [
  | inl e ↦ rw (e, take_conn) b
  | inr (pc, e) ↦
      rw (e, take_conn)
        (
          omega (arith, length-drop_last (conns_at addr s), conns_at-Bounded addr s b),
          remove-Bounded addr s b,
        )
]

put_conn-Bounded :
    (closed_before closed : Bool) (now : ℕ) (addr : Name) (o : Option ℕ) (s : PoolShard)
    → Bounded s
    → Bounded ((put_conn closed_before closed now addr o s).0)
unfolding put_conn write_conns
put_conn-Bounded closed_before closed now addr none s b = b
put_conn-Bounded closed_before closed now addr (some d) s b =
    if_cases P closed_before _ _ (λ h. b)
      (λ h.
        if_cases P closed _ _ (λ h. b)
          (λ h.
            if_cases P (leb max_conns_per_addr (length (conns_at addr s))) _ _ (λ h. b)
              (λ h. (
                ground (
                  arith,
                  h,
                  length-append (conns_at addr s) (record { conn = d; last_used = now } ∷ []),
                ),
                remove-Bounded addr s b,
              ))))
  where
    P : PoolShard × List ℕ → Type 0
    P r = Bounded (r.0)

-- Get and Put keep the number of sockets of every address within the limit.
pub pool_operations-Bounded :
    (closed_before closed : Bool) (now : ℕ) (addr : Name) (o : Option ℕ) (s : PoolShard)
    → Bounded s
    → Bounded ((take_conn addr s).0) × Bounded ((put_conn closed_before closed now addr o s).0)
pool_operations-Bounded closed_before closed now addr o s b =
    (take_conn-Bounded addr s b, put_conn-Bounded closed_before closed now addr o s b)
