-- ===== src/Trie/Domain/Stored.antt =====
-- pkg/spoofdpi/internal/trie/domain.go, Add: the trie as a map from patterns to values.
use proksitool.Base.{
  ◌≡◌, refl, ◌∙◌, ap, Bool, true, false, ◌&&◌, List, [], ◌∷◌, Option, none, some, arith,
  if◌then◌else◌, Bool-cases, inl, inr,
}
use proksitool.Trie.Domain.{
  Name, Node, Child, Children, node, child, nil, entry, name_eq, star, globstar, new_node,
  node_value, child_or_new, lookup, store, add_segments,
}
use proksitool.Trie.Domain.Names.{name_eq_iff}

abbrev pub names_eq : List Name → List Name → Bool
names_eq [] [] = true
names_eq [] (t ∷ q) = false
names_eq (s ∷ p) [] = false
names_eq (s ∷ p) (t ∷ q) = name_eq s t && names_eq p q

module _ {T : Type 0} where
  -- The child for a segment of a pattern.
  unfoldable pub step : Node T → Name → Child T
  unfolding lookup
  step (node ch w g v) seg =
      if name_eq seg star then w else if name_eq seg globstar then g else lookup ch seg

  -- The value stored for a pattern, which is read segment by segment.
  unfoldable pub get : Node T → List Name → Option T
  unfolding step node_value child_or_new new_node
  get n [] = node_value n
  get n (seg ∷ rest) = get (child_or_new (step n seg)) rest

  lookup-store :
      (ch : Children T) (seg k : Name) (m : Node T)
      → lookup (store ch seg m) k ≡ (if name_eq seg k then child m else lookup ch k)
  unfolding lookup store
  lookup-store nil seg k m = refl
  lookup-store (entry j n ch) seg k m =
      ground (arith, name_eq_iff seg k, name_eq_iff j seg, name_eq_iff j k, lookup-store ch seg k m)

  -- A step of `Add` replaces one child.
  step-add_segments :
      (n : Node T) (seg k : Name) (rest : List Name) (value : T)
      → step (add_segments n (seg ∷ rest) value) k ≡ (
          if name_eq seg k
          then child (add_segments (child_or_new (step n seg)) rest value)
          else step n k)
  unfolding step add_segments
  step-add_segments (node ch w g v) seg k rest value = ground (
    arith,
    name_eq_iff seg k,
    name_eq_iff seg star,
    name_eq_iff k star,
    name_eq_iff seg globstar,
    name_eq_iff k globstar,
    lookup-store ch seg k (add_segments (child_or_new (lookup ch seg)) rest value),
  )

  node_value-add_segments :
      (n : Node T) (seg : Name) (rest : List Name) (value : T)
      → node_value (add_segments n (seg ∷ rest) value) ≡ node_value n
  unfolding node_value add_segments
  node_value-add_segments (node ch w g v) seg rest value = ground arith

  pub get-new_node : (p : List Name) → get (new_node {T = T}) p ≡ none
  unfolding get
  get-new_node [] = refl
  get-new_node (seg ∷ rest) = ground (arith, get-new_node rest)

  -- `Add` is the write of a map from patterns to values: the pattern that is added has the value
  -- after it, whatever was there, and every other pattern what it had.
  pub get-add_segments :
      (n : Node T) (p q : List Name) (value : T)
      → get (add_segments n p value) q ≡ (if names_eq p q then some value else get n q)
  unfolding get add_segments
  get-add_segments (node ch w g v) [] [] value = refl
  get-add_segments (node ch w g v) [] (t ∷ q) value = refl
  get-add_segments n (s ∷ p) [] value = node_value-add_segments n s p value
  get-add_segments n (s ∷ p) (t ∷ q) value = elim (Bool-cases (name_eq s t)) [
    | inl same ↦
        let e : s ≡ t = (name_eq_iff s t).0 same in
        rw (step-add_segments n s t p value, same)
          (get-add_segments (child_or_new (step n s)) p q value
            ∙ ap (λ k. if names_eq p q then some value else get (child_or_new (step n k)) q) e)
    | inr other ↦ rw (step-add_segments n s t p value, other)
  ]
