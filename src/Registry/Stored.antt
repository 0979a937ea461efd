-- ===== src/Registry/Stored.antt =====
-- pkg/spoofdpi/internal/netutil/conn_registry.go: what becomes of a connection that was stored.
use proksitool.Base.{
  ℕ, ◌≤◌, arith, Option-cases, inl, inr, zero, suc, ◌≡◌, refl, ap, false, List, [], ◌∷◌, ◌++◌, some,
  length, get_elem?, ok, Returns, Returns-bind, Returns-map,
}
use proksitool.Cache.{Key, no_options}
use proksitool.Cache.Lru.Sharded.{cache_set, cache_delete, cache_has}
use proksitool.Cache.Lru.Sharded.Usable.{Usable}
use proksitool.Cache.Lru.Sharded.Deleted.{cache_set-cache_delete}
use proksitool.Registry.{
  IdleTimeoutConn, new_idle_timeout_conn, Registry, invalidate, store_conn, evict_conn, has_conn,
  on_close, close_conn,
}

get_elem?-last : {A : Type 0} (l : List A) (a : A) → get_elem? (l ++ (a ∷ [])) (length l) ≡ some a
get_elem?-last [] a = refl
get_elem?-last (x ∷ l) a = get_elem?-last l a

get_elem?-before :
    {A : Type 0} (l more : List A) (i : ℕ) (a : A)
    → get_elem? l i ≡ some a
    → get_elem? (l ++ more) i ≡ some a
get_elem?-before [] more i a e = cc
get_elem?-before (x ∷ l) more zero a e = e
get_elem?-before (x ∷ l) more (suc i) a e = get_elem?-before l more i a e

invalidate-last :
    {K : Type 0} (q : K) (l : List (IdleTimeoutConn K)) (c : IdleTimeoutConn K)
    → invalidate (l ++ (c ∷ [])) ((q, length l) ∷ []) ≡ c.conn ∷ []
unfolding invalidate
invalidate-last q l c = rw (get_elem?-last l c, invalidate) refl

length-invalidate :
    {K : Type 0} (l : List (IdleTimeoutConn K)) (out : List (K × ℕ))
    → length (invalidate l out) ≤ length out
unfolding invalidate
length-invalidate l [] = omega arith
length-invalidate l ((k, p) ∷ out) = elim (Option-cases (get_elem? l p)) [
  | inl e ↦ rw (e, invalidate) (omega (arith, length-invalidate l out))
  | inr (c, e) ↦ rw (e, invalidate) (omega (arith, length-invalidate l out))
]

module _ {K : Type 0} (key : Key K) where
  -- The registry `u` is `t` with the connection of `q` closed and gone.
  pub record Gone (q : K) (raw : ℕ) (t u : Registry K) : Type 0 where
    pub closed_now : u.closed ≡ t.closed ++ (raw ∷ [])
    pub same_heap : u.heap ≡ t.heap
    pub not_held : has_conn key q u ≡ ok false

  -- The heap after Store.
  abbrev stored_in : K → ℕ → ℕ → Registry K → List (IdleTimeoutConn K)
  stored_in q raw now r =
      r.heap ++ (record (new_idle_timeout_conn raw r.timeout now) { key = some q } ∷ [])

  -- The registry `t` is `r` with one connection more closed, at most.
  abbrev pub ClosesOne : Registry K → Registry K → Type 0
  ClosesOne r t = (l : List ℕ) × (t.closed ≡ r.closed ++ l) × (length l ≤ 1)

  evicting :
      (q : K) (raw now : ℕ) (r : Registry K)
      → Usable key r.storage
      → Returns
          (λ t.
            ((t.0).heap ≡ stored_in q raw now r)
            × ClosesOne r (t.0)
            × Returns (Gone q raw (t.0)) (evict_conn key q (t.0)))
          (store_conn key q raw now r)
  unfolding store_conn evict_conn has_conn new_idle_timeout_conn
  evicting q raw now r u =
      Returns-bind
        (λ t.
          (length (t.2) ≤ 1)
          × Returns (λ v. (v.1 ≡ (q, length r.heap) ∷ []) × (cache_has key q (v.0) ≡ ok false))
              (cache_delete key q (t.0)))
        (λ t.
          ((t.0).heap ≡ stored_in q raw now r)
          × ClosesOne r (t.0)
          × Returns (Gone q raw (t.0)) (evict_conn key q (t.0)))
        (cache_set key q (length r.heap) no_options r.storage) _
        (cache_set-cache_delete key q (length r.heap) r.storage u)
        (λ t (one, h). (
          refl,
          (
            invalidate (stored_in q raw now r) (t.2),
            refl,
            omega (arith, length-invalidate (stored_in q raw now r) (t.2), one),
          ),
          Returns-bind (λ v. (v.1 ≡ (q, length r.heap) ∷ []) × (cache_has key q (v.0) ≡ ok false)) _
              (cache_delete key q (t.0)) _ h
              (λ v (out, gone). record {
                closed_now = rw out (
                    ap (◌++◌ (r.closed ++ invalidate (stored_in q raw now r) (t.2))) (
                      invalidate-last q r.heap
                        (record (new_idle_timeout_conn raw r.timeout now) { key = some q })));
                same_heap = refl;
                not_held = gone;
              }),
        ))

  -- With well-formed storage, Store closes one connection at most; Evict of the key after it closes the
  -- stored connection, and no other, and leaves nothing under the key.
  pub store_conn-evict_conn :
      (q : K) (raw now : ℕ) (r : Registry K)
      → Usable key r.storage
      → Returns
          (λ t. ClosesOne r (t.0) × Returns (Gone q raw (t.0)) (evict_conn key q (t.0)))
          (store_conn key q raw now r)
  store_conn-evict_conn q raw now r u =
      Returns-map _ _ (store_conn key q raw now r) (λ t (same, one, gone). (one, gone))
        (evicting q raw now r u)

  closing :
      (q : K) (raw p : ℕ) (c : IdleTimeoutConn K) (t : Registry K)
      → get_elem? t.heap p ≡ some c
      → c.key ≡ some q
      → Returns (Gone q raw t) (evict_conn key q t)
      → Returns
          (λ u.
            (u.closed ≡ t.closed ++ (raw ∷ []) ++ (c.conn ∷ [])) × (has_conn key q u ≡ ok false))
          (close_conn key p t)
  unfolding close_conn on_close has_conn
  closing q raw p c t e k h =
      rw (e, k, close_conn, on_close)
        (Returns-bind (Gone q raw t) _ (evict_conn key q t) _ h
          (λ u g. (ap (λ (l : List ℕ). l ++ (c.conn ∷ [])) (Gone.closed_now g), Gone.not_held g)))

  -- With well-formed storage, closing a connection after another one was stored under its key closes
  -- that other one as well, and leaves nothing under the key.
  pub store_conn-close_conn :
      (q : K) (raw now p : ℕ) (c : IdleTimeoutConn K) (r : Registry K)
      → Usable key r.storage
      → get_elem? r.heap p ≡ some c
      → c.key ≡ some q
      → Returns
          (λ t.
            Returns
              (λ u.
                (u.closed ≡ (t.0).closed ++ (raw ∷ []) ++ (c.conn ∷ []))
                × (has_conn key q u ≡ ok false))
              (close_conn key p (t.0)))
          (store_conn key q raw now r)
  store_conn-close_conn q raw now p c r u e k =
      Returns-map _ _ (store_conn key q raw now r)
        (λ t (same, one, gone).
          closing q raw p c (t.0) (rw same (get_elem?-before r.heap _ p c e)) k gone)
        (evicting q raw now r u)
