-- ===== src/Cache/Lru/Stored.antt =====
-- pkg/spoofdpi/internal/cache/lru_cache.go: what the operations do to the lookups.
use proksitool.Base.{
  suc, ◌<◌, ◌≡◌, ◌⊎◌, refl, sym, ap, ◌∙◌, true, false, not, ◌&&◌, List, [], ◌∷◌, Option, none, some,
  ltb, length, if◌then◌else◌, Option-cases, Bool-cases, inl, inr, arith, if_cases, ltb→lt,
}
use proksitool.Cache.{Options, Key}
use proksitool.Cache.Entries.{
  has-find, find-last, last-some, find, has, Distinct, contains, drop_last, find-front,
  find-drop_last, has-drop_last,
}
use proksitool.Cache.Lru.{
  Shard, Change, move_to_front, get, evict, overwrite, insert, refused, set_key, Valid,
}
use proksitool.Cache.Lru.Kept.{set_key-Valid}

module _ {K V : Type 0} (key : Key K) where
  abbrev Ok : Shard K V → Type 0
  Ok s = Valid key s

  move_to_front-find :
      (q k : K) (l : List (K × V))
      → find (Key.eq key) k (move_to_front key q l) ≡ find (Key.eq key) k l
  unfolding move_to_front
  move_to_front-find q k l = elim (Option-cases (find (Key.eq key) q l)) [
    | inl e ↦ rw (e, move_to_front) refl
    | inr (v, e) ↦
        rw (e, move_to_front)
          (find-front (Key.eq key) (Key.eq_iff key) q k v l ∙ elim (Bool-cases (Key.eq key q k)) [
            | inl y ↦ let p : q ≡ k = (Key.eq_iff key q k).0 y in rw (y, sym p) (sym e)
            | inr n ↦ rw n refl
          ])
  ]

  find-drop_last_front :
      (q : K) (v : V) (l : List (K × V))
      → 0 < length l
      → find (Key.eq key) q (drop_last ((q, v) ∷ l)) ≡ some v
  unfolding find drop_last
  find-drop_last_front q v [] h = elim h [ ]
  find-drop_last_front q v (y ∷ l) h = rw ((Key.eq_iff key q q).1 refl) refl

  -- The eviction never takes the newest entry of a shard.
  insert-find :
      (q : K) (v : V) (s : Shard K V)
      → 0 < Shard.capacity s
      → find (Key.eq key) q (Shard.list (Change.shard (insert key q v s))) ≡ some v
  unfolding insert evict find
  insert-find q v s pos =
      if_cases (λ (r : Shard K V × List (K × V)). find (Key.eq key) q (Shard.list (r.0)) ≡ some v)
        (ltb (Shard.capacity s) (suc (length (Shard.list s)))) _ _
        (λ h.
          let ((k, w), e) = last-some ((q, v) ∷ Shard.list s) (omega arith) in
          rw e (find-drop_last_front q v (Shard.list s) (omega (arith, pos, ltb→lt _ _ h))))
        (λ h. rw ((Key.eq_iff key q q).1 refl) refl)

  pub cases_Change :
      (P : Change K V → Type 0) (q : K) (v : V) (o : Options) (s : Shard K V)
      → P (refused key s)
      → (contains (Key.eq key) (Shard.items s) q ≡ true → P (overwrite key q v s))
      → (contains (Key.eq key) (Shard.items s) q ≡ false → P (insert key q v s))
      → P (set_key key q v o s)
  unfolding set_key
  cases_Change P q v o s hr ho hi =
      if_cases P (contains (Key.eq key) (Shard.items s) q && Options.skip_existing o) _ _ (λ h. hr)
        (λ h.
          if_cases P
            (not (contains (Key.eq key) (Shard.items s) q) && Options.update_existing_only o) _ _
            (λ h. hr) (λ h. if_cases P (contains (Key.eq key) (Shard.items s) q) _ _ ho hi))

  -- What the list holds under the key after a Set.
  pub set_key-listed :
      (q : K) (v : V) (o : Options) (s : Shard K V)
      → Ok s
      → find (Key.eq key) q (Shard.list (Change.shard (set_key key q v o s))) ≡ (
          if Change.result (set_key key q v o s)
          then some v
          else find (Key.eq key) q (Shard.list s))
  unfolding refused overwrite insert find
  set_key-listed q v o s ok =
      cases_Change
        (λ r.
          find (Key.eq key) q (Shard.list (Change.shard r))
          ≡ (if Change.result r then some v else find (Key.eq key) q (Shard.list s)))
        q v o s refl (λ h. rw ((Key.eq_iff key q q).1 refl) refl)
        (λ h. insert-find q v s (Valid.positive ok))

  -- On a well-formed shard Get returns what is stored under the key, and changes the value of no key.
  pub get-find :
      (q k : K) (s : Shard K V)
      → Ok s
      → ((get key q s).1 ≡ find (Key.eq key) q (Shard.list s))
        × (find (Key.eq key) k (Shard.list ((get key q s).0)) ≡ find (Key.eq key) k (Shard.list s))
  unfolding get
  get-find q k s ok =
      if_cases
        (λ (r : Shard K V × Option V).
          (r.1 ≡ find (Key.eq key) q (Shard.list s))
          × (find (Key.eq key) k (Shard.list (r.0)) ≡ find (Key.eq key) k (Shard.list s)))
        (contains (Key.eq key) (Shard.items s) q) _ _
        (λ h. (refl, move_to_front-find q k (Shard.list s)))
        (λ h. (
          sym (
              (has-find (Key.eq key) (Key.eq_iff key) q (Shard.list s)).0
                (sym (Valid.same ok q) ∙ h)),
          refl,
        ))

  -- After a Set on a well-formed shard, Get of the key gives the new value if Set reported success, and
  -- what it gave before if it did not.
  pub set_key-get :
      (q : K) (v : V) (o : Options) (s : Shard K V)
      → Ok s
      → (get key q (Change.shard (set_key key q v o s))).1
        ≡ (if Change.result (set_key key q v o s) then some v else (get key q s).1)
  set_key-get q v o s ok = rw ((get-find q q s ok).0) (
      (get-find q q (Change.shard (set_key key q v o s)) (set_key-Valid key q v o s ok)).0
      ∙ set_key-listed q v o s ok)

  -- What an operation may do to the value under a key, `before` and `after` it: nothing, or the entry
  -- was there, is gone, and is among the invalidated ones.
  abbrev pub KeptOrEvicted : K → Option V → Option V → List (K × V) → Type 0
  KeptOrEvicted k before after out =
      (after ≡ before)
      ⊎ ((w : V) × (before ≡ some w) × (after ≡ none) × (find (Key.eq key) k out ≡ some w))

  evict-others :
      (k : K) (s : Shard K V)
      → Distinct (Key.eq key) (Shard.list s)
      → KeptOrEvicted k
          (find (Key.eq key) k (Shard.list s))
          (find (Key.eq key) k (Shard.list (evict key s).0))
          ((evict key s).1)
  unfolding evict find
  evict-others k s d =
      if_cases
        (λ (r : Shard K V × List (K × V)).
          KeptOrEvicted k (find (Key.eq key) k (Shard.list s))
            (find (Key.eq key) k (Shard.list (r.0))) (r.1))
        (ltb (Shard.capacity s) (length (Shard.list s))) _ _
        (λ h.
          let ((j, w), e) = last-some (Shard.list s) (omega (arith, ltb→lt _ _ h)) in
          rw e (elim (Bool-cases (Key.eq key j k)) [
            | inl y ↦
                let p : j ≡ k = (Key.eq_iff key j k).0 y in
                inr (
                  w,
                  ap (λ i. find (Key.eq key) i (Shard.list s)) (sym p)
                      ∙ find-last (Key.eq key) (Key.eq_iff key) (Shard.list s) j w d e,
                  (has-find (Key.eq key) (Key.eq_iff key) k (drop_last (Shard.list s))).0 (
                      has-drop_last (Key.eq key) (Key.eq_iff key) k (Shard.list s) j w d e
                      ∙ ground (arith, y)),
                  rw y refl,
                )
            | inr n ↦ inl (find-drop_last (Key.eq key) (Key.eq_iff key) k (Shard.list s) j w e n)
          ]))
        (λ h. inl refl)

  set_key-others_listed :
      (q k : K) (v : V) (o : Options) (s : Shard K V)
      → Ok s
      → Key.eq key q k ≡ false
      → KeptOrEvicted k
          (find (Key.eq key) k (Shard.list s))
          (find (Key.eq key) k (Shard.list (Change.shard (set_key key q v o s))))
          (Change.invalidated (set_key key q v o s))
  unfolding refused overwrite insert find has
  set_key-others_listed q k v o s ok ne =
      cases_Change
        (λ r.
          KeptOrEvicted k (find (Key.eq key) k (Shard.list s))
            (find (Key.eq key) k (Shard.list (Change.shard r))) (Change.invalidated r))
        q v o s (inl refl)
        (λ h. inl (find-front (Key.eq key) (Key.eq_iff key) q k v (Shard.list s) ∙ rw ne refl))
        (λ h.
          let e : find (Key.eq key) k ((q, v) ∷ Shard.list s) ≡ find (Key.eq key) k (Shard.list s) =
            rw ne refl in
          elim (evict-others k
            (record s { items = q ∷ Shard.items s; list = (q, v) ∷ Shard.list s })
            (sym (Valid.same ok q) ∙ h, Valid.distinct ok)) [
              | inl a ↦ inl (a ∙ e)
              | inr (w, a, b, c) ↦ inr (w, sym e ∙ a, b, c)
            ])

  -- A Set on a well-formed shard does to another key at most this: Get gives what it gave before, or
  -- the key had a value, Get gives none after it, and the entry is among the invalidated ones.
  pub set_key-others :
      (q k : K) (v : V) (o : Options) (s : Shard K V)
      → Ok s
      → Key.eq key q k ≡ false
      → KeptOrEvicted k
          ((get key k s).1)
          ((get key k (Change.shard (set_key key q v o s))).1)
          (Change.invalidated (set_key key q v o s))
  set_key-others q k v o s ok ne =
      rw
        (
          (get-find k k s ok).0,
          (get-find k k (Change.shard (set_key key q v o s)) (set_key-Valid key q v o s ok)).0,
        )
        (set_key-others_listed q k v o s ok ne)
