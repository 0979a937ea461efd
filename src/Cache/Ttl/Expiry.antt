-- ===== src/Cache/Ttl/Expiry.antt =====
-- pkg/spoofdpi/internal/cache/ttl_cache.go: what can be read from a shard, and until when.
use proksitool.Base.{
  false≢true, ℕ, ◌+◌, ◌≤◌, ◌<◌, ◌≡◌, ◌∙◌, refl, sym, ap, Bool, true, false, not, ◌&&◌, ◌==◌, List,
  [], ◌∷◌, Option, none, some, leb, if◌then◌else◌, Bool-cases, Option-cases, inl, inr, arith,
  if_cases,
}
use proksitool.Cache.{Options, Key}
use proksitool.Cache.Entries.{find, has, Distinct, has-find}
use proksitool.Cache.Ttl.{Item, is_expired, put, set_item, drop_expired, get_item, cleanup}

module _ {K V : Type 0} (key : Key K) where
  -- What Get answers, read off the map.
  abbrev alive : ℕ → Option (Item V) → Option V
  alive now none = none
  alive now (some i) = if is_expired now i then none else some (Item.value i)

  get_item-alive :
      (q : K) (now : ℕ) (l : List (K × Item V))
      → (get_item key q now l).0 ≡ alive now (find (Key.eq key) q l)
  unfolding get_item
  get_item-alive q now l = elim (Option-cases (find (Key.eq key) q l)) [
    | inl e ↦ rw (e, get_item) refl
    | inr (i, e) ↦
        rw (e, get_item)
          (if_cases
            (λ (r : Option V × List (K × Item V)).
              r.0 ≡ (if is_expired now i then none else some (Item.value i)))
            (is_expired now i) _ _ (λ h. rw h refl) (λ h. rw h refl))
  ]

  expired_later :
      (now later : ℕ) (i : Item V)
      → now ≤ later
      → is_expired now i ≡ true
      → is_expired later i ≡ true
  unfolding is_expired
  expired_later now later i h e = ground arith

  cleanup-alive :
      (q : K) (now later : ℕ) (l : List (K × Item V))
      → Distinct (Key.eq key) l
      → now ≤ later
      → alive later (find (Key.eq key) q (cleanup key now l)) ≡ alive later (find (Key.eq key) q l)
  unfolding cleanup find
  cleanup-alive q now later [] d h = refl
  cleanup-alive q now later ((k, i) ∷ l) (new, d) h = elim (Bool-cases (is_expired now i)) [
    | inl e ↦ rw e (
        cleanup-alive q now later l d h ∙ elim (Bool-cases (Key.eq key k q)) [
          | inl y ↦
              let p : k ≡ q = (Key.eq_iff key k q).0 y in
              let miss : find (Key.eq key) q l ≡ none =
                (has-find (Key.eq key) (Key.eq_iff key) q l).0
                  (ap (λ a. has (Key.eq key) a l) (sym p) ∙ new) in
              rw (y, miss, expired_later now later i h e) refl
          | inr n ↦ rw n refl
        ])
    | inr e ↦ rw e (elim (Bool-cases (Key.eq key k q)) [
      | inl y ↦ rw y refl
      | inr n ↦ rw n (cleanup-alive q now later l d h)
    ])
  ]

  put-get :
      (q : K) (v : V) (until later : ℕ) (l : List (K × Item V))
      → 0 < until
      → (get_item key q later (put key q (record { value = v; expires_at = until }) l)).0
        ≡ (if leb later until then some v else none)
  unfolding put find is_expired
  put-get q v until later l h =
      get_item-alive q later (put key q (record { value = v; expires_at = until }) l)
      ∙ rw ((Key.eq_iff key q q).1 refl) (ground arith)

  -- A value can be read back until its time to live has passed since the Set, and not later; a Set
  -- that reports failure leaves what was there.
  pub set_item-get :
      (q : K) (v : V) (o : Options) (now later : ℕ) (l : List (K × Item V))
      → (get_item key q later (set_item key q v o now l).1).0 ≡ (
          if (set_item key q v o now l).0
          then if leb later (now + Options.ttl o) then some v else none
          else (get_item key q later l).0)
  unfolding set_item
  set_item-get q v o now later l =
      if_cases P (Options.ttl o == 0) _ _ (λ h. refl)
        (λ t.
          if_cases P (has (Key.eq key) q l && Options.skip_existing o) _ _ (λ h. refl)
            (λ h.
              if_cases P (not (has (Key.eq key) q l) && Options.update_existing_only o) _ _
                (λ h. refl) (λ h. put-get q v (now + Options.ttl o) later l (ground (arith, t)))))
    where
      P : Bool × List (K × Item V) → Type 0
      P r = (get_item key q later (r.1)).0 ≡ (
          if r.0
          then if leb later (now + Options.ttl o) then some v else none
          else (get_item key q later l).0)

  -- In a shard without a key twice, cleaning up at one time changes no answer of Get at that time or
  -- later.
  pub cleanup-get :
      (q : K) (now later : ℕ) (l : List (K × Item V))
      → Distinct (Key.eq key) l
      → now ≤ later
      → (get_item key q later (cleanup key now l)).0 ≡ (get_item key q later l).0
  cleanup-get q now later l d h =
      get_item-alive q later (cleanup key now l)
      ∙ cleanup-alive q now later l d h
      ∙ sym (get_item-alive q later l)

  drop_expired-other :
      (q : K) (i j : Item V) (l : List (K × Item V))
      → find (Key.eq key) q l ≡ some j
      → (Item.expires_at j == Item.expires_at i) ≡ false
      → drop_expired key q i l ≡ l
  unfolding drop_expired
  drop_expired-other q i j l e h = rw (e, drop_expired) (rw h refl)

  drop_expired-put :
      (q : K) (i j : Item V) (l : List (K × Item V))
      → (Item.expires_at j == Item.expires_at i) ≡ false
      → find (Key.eq key) q (drop_expired key q i (put key q j l)) ≡ some j
  unfolding put find
  drop_expired-put q i j l h =
      let stored : find (Key.eq key) q (put key q j l) ≡ some j =
        rw ((Key.eq_iff key q q).1 refl) refl in
      rw (drop_expired-other q i j (put key q j l) stored h) stored

  -- Get gives its lock up between finding an item expired and dropping it. A value that a Set stores
  -- in between is still there after the drop.
  pub drop_expired-set_item :
      (q : K) (v : V) (o : Options) (i : Item V) (now later : ℕ) (l : List (K × Item V))
      → is_expired now i ≡ true
      → now ≤ later
      → (set_item key q v o later l).0 ≡ true
      → find (Key.eq key) q (drop_expired key q i (set_item key q v o later l).1)
        ≡ some (record { value = v; expires_at = later + Options.ttl o })
  unfolding set_item is_expired
  drop_expired-set_item q v o i now later l expired h =
      if_cases P (Options.ttl o == 0) _ _ (λ _ e. absurd (false≢true e))
        (λ _.
          if_cases P (has (Key.eq key) q l && Options.skip_existing o) _ _
            (λ _ e. absurd (false≢true e))
            (λ _.
              if_cases P (not (has (Key.eq key) q l) && Options.update_existing_only o) _ _
                (λ _ e. absurd (false≢true e))
                (λ _ _.
                  drop_expired-put q i (record { value = v; expires_at = later + Options.ttl o }) l
                    (ground (arith, expired)))))
    where
      P : Bool × List (K × Item V) → Type 0
      P r =
          r.0 ≡ true
          → find (Key.eq key) q (drop_expired key q i (r.1))
            ≡ some (record { value = v; expires_at = later + Options.ttl o })
