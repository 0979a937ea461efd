-- ===== src/Cache/Entries.antt =====
-- Lists of entries with a key each: reading, removing, and the last entry.
use proksitool.Base.{
  suc, ◌-◌, ◌<◌, ◌≡◌, ◌∙◌, sym, ◌↔◌, refl, Bool, true, false, not, ◌&&◌, List, [], ◌∷◌, Option,
  none, some, arith, if◌then◌else◌, length, Bool-cases, inl, inr,
}

module _ {K V : Type 0} (eq : K → K → Bool) where
  unfoldable pub find : K → List (K × V) → Option V
  find q [] = none
  find q ((k, v) ∷ l) = if eq k q then some v else find q l

  unfoldable pub remove : K → List (K × V) → List (K × V)
  remove q [] = []
  remove q ((k, v) ∷ l) = if eq k q then l else (k, v) ∷ remove q l

  unfoldable pub has : K → List (K × V) → Bool
  has q [] = false
  has q ((k, v) ∷ l) = if eq k q then true else has q l

  -- No key stands twice.
  abbrev pub Distinct : List (K × V) → Type 0
  Distinct [] = Unit
  Distinct ((k, v) ∷ l) = (has k l ≡ false) × Distinct l

module _ {K : Type 0} (eq : K → K → Bool) where
  unfoldable pub contains : List K → K → Bool
  contains [] q = false
  contains (k ∷ ks) q = if eq k q then true else contains ks q

  unfoldable pub erase : K → List K → List K
  erase q [] = []
  erase q (k ∷ ks) = let rest = erase q ks in if eq k q then rest else k ∷ rest

module _ {A : Type 0} where
  -- All but the last, and the last.
  unfoldable pub drop_last : List A → List A
  drop_last [] = []
  drop_last (x ∷ []) = []
  drop_last (x ∷ y ∷ l) = x ∷ drop_last (y ∷ l)

  unfoldable pub last : List A → Option A
  last [] = none
  last (x ∷ []) = some x
  last (x ∷ y ∷ l) = last (y ∷ l)

  pub length-drop_last : (l : List A) → length (drop_last l) ≡ length l - 1
  unfolding drop_last
  length-drop_last [] = refl
  length-drop_last (x ∷ []) = refl
  length-drop_last (x ∷ y ∷ l) = omega (arith, length-drop_last (y ∷ l))

  pub last-some : (l : List A) → 0 < length l → (x : A) × (last l ≡ some x)
  unfolding last
  last-some [] h = elim h [ ]
  last-some (x ∷ []) h = (x, refl)
  last-some (x ∷ y ∷ l) h = last-some (y ∷ l) (omega arith)

module _ {K V : Type 0} (eq : K → K → Bool) (eq_iff : (a b : K) → (eq a b ≡ true) ↔ (a ≡ b)) where
  pub has-find : (q : K) (l : List (K × V)) → (has eq q l ≡ false) ↔ (find eq q l ≡ none)
  unfolding has find
  has-find q [] = ground arith
  has-find q ((k, v) ∷ l) = ground (arith, has-find q l)

  pub has-remove :
      (q k : K) (l : List (K × V))
      → Distinct eq l
      → has eq q (remove eq k l) ≡ (has eq q l && not (eq k q))
  unfolding has remove
  has-remove q k [] d = refl
  has-remove q k ((j, v) ∷ l) (new, d) =
      ground (arith, has-remove q k l d, eq_iff j q, eq_iff k q, eq_iff j k)

  pub remove-Distinct : (k : K) (l : List (K × V)) → Distinct eq l → Distinct eq (remove eq k l)
  unfolding has remove
  remove-Distinct k [] d = tt
  remove-Distinct k ((j, v) ∷ l) (new, d) = elim (Bool-cases (eq j k)) [
    | inl e ↦ rw e d
    | inr e ↦ rw e (rw (has-remove j k l d, new) refl, remove-Distinct k l d)
  ]

  pub find-remove :
      (q k : K) (l : List (K × V)) → eq k q ≡ false → find eq q (remove eq k l) ≡ find eq q l
  unfolding find remove
  find-remove q k [] d = refl
  find-remove q k ((j, v) ∷ l) d =
      ground (arith, find-remove q k l d, eq_iff j q, eq_iff k q, eq_iff j k)

  pub length-remove :
      (k : K) (l : List (K × V)) → has eq k l ≡ true → suc (length (remove eq k l)) ≡ length l
  unfolding has remove
  length-remove k [] h = cc
  length-remove k ((j, v) ∷ l) h = ground (arith, length-remove k l)

  has-last :
      (x : K × V) (l : List (K × V)) (k : K) (v : V)
      → last (x ∷ l) ≡ some (k, v)
      → has eq k (x ∷ l) ≡ true
  unfolding has last
  has-last (j, u) [] k v e = ground (arith, eq_iff j k)
  has-last (j, u) (y ∷ l) k v e = ground (arith, has-last y l k v)

  pub find-last :
      (l : List (K × V)) (k : K) (v : V)
      → Distinct eq l
      → last l ≡ some (k, v)
      → find eq k l ≡ some v
  unfolding find last
  find-last [] k v d e = cc
  find-last ((j, u) ∷ []) k v d e = ground (arith, eq_iff j k)
  find-last ((j, u) ∷ y ∷ l) k v (new, d) e =
      ground (arith, find-last (y ∷ l) k v d e, has-last y l k v e, eq_iff j k)

  pub has-drop_last :
      (q : K) (l : List (K × V)) (k : K) (v : V)
      → Distinct eq l
      → last l ≡ some (k, v)
      → has eq q (drop_last l) ≡ (has eq q l && not (eq k q))
  unfolding has drop_last last
  has-drop_last q [] k v d e = refl
  has-drop_last q ((j, u) ∷ []) k v d e = ground (arith, eq_iff j q, eq_iff k q)
  has-drop_last q ((j, u) ∷ y ∷ l) k v (new, d) e = ground (
    arith,
    has-drop_last q (y ∷ l) k v d e,
    has-last y l k v e,
    eq_iff j q,
    eq_iff k q,
    eq_iff j k,
  )

  pub drop_last-Distinct :
      (l : List (K × V)) (k : K) (v : V)
      → last l ≡ some (k, v)
      → Distinct eq l
      → Distinct eq (drop_last l)
  unfolding drop_last last
  drop_last-Distinct [] k v e d = tt
  drop_last-Distinct (x ∷ []) k v e d = tt
  drop_last-Distinct ((j, u) ∷ y ∷ l) k v e (new, d) =
      (rw (has-drop_last j (y ∷ l) k v d e, new) refl, drop_last-Distinct (y ∷ l) k v e d)

  pub find-drop_last :
      (q : K) (l : List (K × V)) (k : K) (v : V)
      → last l ≡ some (k, v)
      → eq k q ≡ false
      → find eq q (drop_last l) ≡ find eq q l
  unfolding find drop_last last
  find-drop_last q [] k v e h = refl
  find-drop_last q ((j, u) ∷ []) k v e h = ground (arith, eq_iff j q, eq_iff k q)
  find-drop_last q ((j, u) ∷ y ∷ l) k v e h = ground (arith, find-drop_last q (y ∷ l) k v e h)

module _ {K : Type 0} (eq : K → K → Bool) (eq_iff : (a b : K) → (eq a b ≡ true) ↔ (a ≡ b)) where
  pub contains-erase :
      (q k : K) (ks : List K) → contains eq (erase eq k ks) q ≡ (contains eq ks q && not (eq k q))
  unfolding contains erase
  contains-erase q k [] = refl
  contains-erase q k (j ∷ ks) =
      ground (arith, contains-erase q k ks, eq_iff j q, eq_iff k q, eq_iff j k)

module _ {K V : Type 0} (eq : K → K → Bool) (eq_iff : (a b : K) → (eq a b ≡ true) ↔ (a ≡ b)) where
  -- An entry that is moved to the front, with any value.
  pub has-front :
      (q k : K) (v : V) (l : List (K × V))
      → Distinct eq l
      → has eq q l ≡ true
      → has eq k ((q, v) ∷ remove eq q l) ≡ has eq k l
  unfolding has
  has-front q k v l d h = elim (Bool-cases (eq q k)) [
    | inl e ↦ let p : q ≡ k = (eq_iff q k).0 e in rw (e, sym p) (sym h)
    | inr e ↦ rw e (has-remove eq eq_iff k q l d ∙ ground (arith, e))
  ]

  pub front-Distinct :
      (q : K) (v : V) (l : List (K × V)) → Distinct eq l → Distinct eq ((q, v) ∷ remove eq q l)
  front-Distinct q v l d = (
    has-remove eq eq_iff q q l d ∙ ground (arith, (eq_iff q q).1 refl),
    remove-Distinct eq eq_iff q l d,
  )

  pub find-front :
      (q k : K) (v : V) (l : List (K × V))
      → find eq k ((q, v) ∷ remove eq q l) ≡ (if eq q k then some v else find eq k l)
  unfolding find
  find-front q k v l = elim (Bool-cases (eq q k)) [
    | inl e ↦ rw e refl
    | inr e ↦ rw e (find-remove eq eq_iff k q l e)
  ]
