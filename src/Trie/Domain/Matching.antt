-- ===== src/Trie/Domain/Matching.antt =====
-- pkg/spoofdpi/internal/trie/domain.go, Search: against a relation that says which patterns match a
-- domain, with no search order in it. Segments stand last first, as in the code.
pub mod Sound
pub mod Complete
use proksitool.Base.{◌≡◌, ◌⊎◌, refl, true, false, List, [], ◌∷◌, Option, none, some, inl, inr, All}
use proksitool.Trie.Domain.{
  Name, Node, Child, absent, child, name_eq, star, globstar, or_else, child_or_new, first_suffix,
}
use proksitool.Trie.Domain.Stored.{get, get-new_node}

-- A segment that is no wildcard.
abbrev pub IsPlain : Name → Type 0
IsPlain s = (name_eq s star ≡ false) × (name_eq s globstar ≡ false)

pub data Suffix : List Name → List Name → Type 0 where
  whole : {l : List Name} → Suffix l l
  later : {x : Name} {r l : List Name} → Suffix r l → Suffix r (x ∷ l)

-- `*` stands for one segment, or for none at the end; `**` for any number of them, but in front of
-- other segments it needs a segment left to stand at.
pub data Matches : List Name → List Name → Type 0 where
  done : Matches [] []
  exact : {s : Name} {p r : List Name} → IsPlain s → Matches p r → Matches (s ∷ p) (s ∷ r)
  one :
      {s t : Name} {p r : List Name} → name_eq s star ≡ true → Matches p r → Matches (s ∷ p) (t ∷ r)
  apex : {s : Name} → name_eq s star ≡ true → Matches (s ∷ []) []
  any : {s : Name} {r : List Name} → name_eq s globstar ≡ true → Matches (s ∷ []) r
  skip :
      {s t : Name} {p r l : List Name}
      → name_eq s globstar ≡ true
      → Suffix r (t ∷ l)
      → Matches p r
      → Matches (s ∷ p) (t ∷ l)

All-Suffix : (P : Name → Type 0) {r l : List Name} → Suffix r l → All P l → All P r
All-Suffix P whole h = h
All-Suffix P (later s) (_, h) = All-Suffix P s h

module _ {T : Type 0} where
  pub or_else-cases :
      (x y : Option T) (v : T) → or_else x y ≡ some v → (x ≡ some v) ⊎ ((x ≡ none) × (y ≡ some v))
  or_else-cases (some u) y v h = inl h
  or_else-cases none y v h = inr (refl, h)

  -- There is an answer.
  abbrev pub Hit : Option T → Type 0
  Hit o = (v : T) × (o ≡ some v)

  pub Hit-left : (x y : Option T) → Hit x → Hit (or_else x y)
  Hit-left x y (v, h) = (v, rw h)

  pub Hit-right : (x y : Option T) → Hit y → Hit (or_else x y)
  Hit-right (some u) y h = (u, refl)
  Hit-right none y h = h

  pub first_suffix-some :
      (f : List Name → Option T) (l : List Name) (v : T)
      → first_suffix f l ≡ some v
      → (r : List Name) × Suffix r l × (f r ≡ some v)
  unfolding first_suffix
  first_suffix-some f [] v h = ([], whole, h)
  first_suffix-some f (s ∷ l) v h = elim (or_else-cases (f (s ∷ l)) (first_suffix f l) v h) [
    | inl here ↦ (s ∷ l, whole, here)
    | inr (_, there) ↦ let (r, suffix, e) = first_suffix-some f l v there in (r, later suffix, e)
  ]

  pub Hit-first_suffix :
      (f : List Name → Option T) {r l : List Name} → Suffix r l → Hit (f r) → Hit (first_suffix f l)
  unfolding first_suffix
  Hit-first_suffix f {r = []} whole h = h
  Hit-first_suffix f {r = s ∷ r} whole h = Hit-left (f (s ∷ r)) (first_suffix f r) h
  Hit-first_suffix f {l = x ∷ l} (later s) h =
      Hit-right (f (x ∷ l)) (first_suffix f l) (Hit-first_suffix f s h)

  -- What is stored below a child is stored below a child that is there.
  pub child_of_get :
      (c : Child T) (p : List Name) (v : T)
      → get (child_or_new c) p ≡ some v
      → (m : Node T) × (c ≡ child m) × (get m p ≡ some v)
  unfolding child_or_new
  child_of_get absent p v h = cc (get-new_node {T = T} p)
  child_of_get (child m) p v h = (m, refl, h)
