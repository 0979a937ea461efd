-- ===== src/Cache/Lru/Kept.antt =====
-- pkg/spoofdpi/internal/cache/lru_cache.go: every operation keeps a shard well formed.
use proksitool.Base.{
  suc, ◌<◌, ◌≤◌, ◌≡◌, refl, sym, ◌∙◌, true, false, not, ◌&&◌, List, ◌∷◌, Option, some, ltb, length,
  Option-cases, inl, inr, arith, if_cases, ltb→lt, ltb→le,
}
use proksitool.Cache.{Options, Key}
use proksitool.Cache.Entries.{
  has-find, last-some, find, remove, has, Distinct, contains, contains-erase, has-remove,
  remove-Distinct, length-remove, has-front, front-Distinct, has-drop_last, drop_last-Distinct,
  length-drop_last,
}
use proksitool.Cache.Lru.{
  Shard, Change, move_to_front, get, evict, overwrite, insert, refused, set_key, delete, Valid,
}

module _ {K V : Type 0} (key : Key K) where
  abbrev Ok : Shard K V → Type 0
  Ok s = Valid key s

  pub find-has :
      (q : K) (v : V) (l : List (K × V))
      → find (Key.eq key) q l ≡ some v
      → has (Key.eq key) q l ≡ true
  find-has q v l e = ground (arith, e, has-find (Key.eq key) (Key.eq_iff key) q l)

  front-Valid :
      (q : K) (v : V) (s : Shard K V)
      → Ok s
      → has (Key.eq key) q (Shard.list s) ≡ true
      → Ok (record s { list = (q, v) ∷ remove (Key.eq key) q (Shard.list s) })
  front-Valid q v s ok h = record {
    same = λ k.
        Valid.same ok k
        ∙ sym (has-front (Key.eq key) (Key.eq_iff key) q k v (Shard.list s) (Valid.distinct ok) h);
    distinct = front-Distinct (Key.eq key) (Key.eq_iff key) q v (Shard.list s) (Valid.distinct ok);
    positive = Valid.positive ok;
    bounded =
        omega
          (arith, length-remove (Key.eq key) (Key.eq_iff key) q (Shard.list s) h, Valid.bounded ok);
  }

  move_to_front-Valid :
      (q : K) (s : Shard K V) → Ok s → Ok (record s { list = move_to_front key q (Shard.list s) })
  unfolding move_to_front
  move_to_front-Valid q s ok = elim (Option-cases (find (Key.eq key) q (Shard.list s))) [
    | inl e ↦ rw (e, move_to_front) ok
    | inr (v, e) ↦ rw (e, move_to_front) (front-Valid q v s ok (find-has q v (Shard.list s) e))
  ]

  pub get-Valid : (q : K) (s : Shard K V) → Ok s → Ok (get key q s).0
  unfolding get
  get-Valid q s ok =
      if_cases (λ (r : Shard K V × Option V). Ok (r.0)) (contains (Key.eq key) (Shard.items s) q) _
        _ (λ h. move_to_front-Valid q s ok) (λ h. ok)

  pub delete-Valid : (q : K) (s : Shard K V) → Ok s → Ok (delete key q s).0
  unfolding delete
  delete-Valid q s ok =
      if_cases (λ (r : Shard K V × List (K × V)). Ok (r.0))
        (contains (Key.eq key) (Shard.items s) q) _ _
        (λ h. record {
          same = λ k.
              contains-erase (Key.eq key) (Key.eq_iff key) k q (Shard.items s)
              ∙ rw (Valid.same ok k) (
                  sym (
                    has-remove (Key.eq key) (Key.eq_iff key) k q (Shard.list s)
                      (Valid.distinct ok)));
          distinct =
              remove-Distinct (Key.eq key) (Key.eq_iff key) q (Shard.list s) (Valid.distinct ok);
          positive = Valid.positive ok;
          bounded = omega (
            arith,
            length-remove (Key.eq key) (Key.eq_iff key) q (Shard.list s)
                (sym (Valid.same ok q) ∙ h),
            Valid.bounded ok,
          );
        })
        (λ h. ok)

  -- A shard that holds one entry too many, before the eviction.
  evict-Valid :
      (s : Shard K V)
      → ((q : K) → contains (Key.eq key) (Shard.items s) q ≡ has (Key.eq key) q (Shard.list s))
      → Distinct (Key.eq key) (Shard.list s)
      → 0 < Shard.capacity s
      → length (Shard.list s) ≤ suc (Shard.capacity s)
      → Ok (evict key s).0
  unfolding evict
  evict-Valid s same d pos le =
      if_cases (λ (r : Shard K V × List (K × V)). Ok (r.0))
        (ltb (Shard.capacity s) (length (Shard.list s))) _ _
        (λ h.
          let ((k, w), e) = last-some (Shard.list s) (omega (arith, ltb→lt _ _ h)) in
          rw e (record {
            same = λ q.
                contains-erase (Key.eq key) (Key.eq_iff key) q k (Shard.items s)
                ∙ rw (same q)
                    (sym (has-drop_last (Key.eq key) (Key.eq_iff key) q (Shard.list s) k w d e));
            distinct = drop_last-Distinct (Key.eq key) (Key.eq_iff key) (Shard.list s) k w e d;
            positive = pos;
            bounded = omega (arith, length-drop_last (Shard.list s), le);
          }))
        (λ h. record { same = same; distinct = d; positive = pos; bounded = ltb→le _ _ h })

  insert-Valid :
      (q : K) (v : V) (s : Shard K V)
      → Ok s
      → contains (Key.eq key) (Shard.items s) q ≡ false
      → Ok (Change.shard (insert key q v s))
  unfolding insert contains has
  insert-Valid q v s ok h =
      evict-Valid (record s { items = q ∷ Shard.items s; list = (q, v) ∷ Shard.list s })
        (λ k. rw (Valid.same ok k) refl) (sym (Valid.same ok q) ∙ h, Valid.distinct ok)
        (Valid.positive ok) (omega (arith, Valid.bounded ok))

  -- Set keeps a shard well formed, whatever the options say.
  pub set_key-Valid :
      (q : K) (v : V) (o : Options) (s : Shard K V) → Ok s → Ok (Change.shard (set_key key q v o s))
  unfolding set_key refused overwrite
  set_key-Valid q v o s ok =
      if_cases (λ (r : Change K V). Ok (Change.shard r))
        (contains (Key.eq key) (Shard.items s) q && Options.skip_existing o) _ _ (λ h. ok)
        (λ h.
          if_cases (λ (r : Change K V). Ok (Change.shard r))
            (not (contains (Key.eq key) (Shard.items s) q) && Options.update_existing_only o) _ _
            (λ h. ok)
            (λ h.
              if_cases (λ (r : Change K V). Ok (Change.shard r))
                (contains (Key.eq key) (Shard.items s) q) _ _
                (λ e. front-Valid q v s ok (sym (Valid.same ok q) ∙ e))
                (λ e. insert-Valid q v s ok e)))
