-- ===== src/Trie/Domain.antt =====
-- pkg/spoofdpi/internal/trie/domain.go: a trie over the segments of a domain, last segment first.
-- Text is its bytes; a map of Go is an association list with one entry for a key.
pub mod Names
pub mod Stored
pub mod Matching
use proksitool.Base.{
  ℕ, suc, Bool, true, false, ◌&&◌, List, [], ◌∷◌, ◌++◌, Option, none, some, ◌==◌, if◌then◌else◌,
  Outcome, ok, err,
}

abbrev pub Name : Type 0
Name = List ℕ

unfoldable pub name_eq : Name → Name → Bool
name_eq [] [] = true
name_eq [] (b ∷ t) = false
name_eq (a ∷ s) [] = false
name_eq (a ∷ s) (b ∷ t) = a == b && name_eq s t

abbrev pub star : Name
star = b'*' ∷ []

abbrev pub globstar : Name
globstar = b'*' ∷ b'*' ∷ []

-- `value` with `hasValue`; a nil child is `absent`.
mutual
  pub data Node (T : Type 0) : Type 0 where
    node : Children T → Child T → Child T → Option T → Node T

  pub data Child (T : Type 0) : Type 0 where
    absent : Child T
    child : Node T → Child T

  pub data Children (T : Type 0) : Type 0 where
    nil : Children T
    entry : Name → Node T → Children T → Children T

abbrev pub or_else {ℓ} : {T : Type ℓ} → Option T → Option T → Option T
or_else (some v) y = some v
or_else none y = y

module _ {T : Type 0} where
  unfoldable pub new_node : Node T
  new_node = node nil absent absent none

  unfoldable pub node_value : Node T → Option T
  node_value (node ch w g v) = v

  unfoldable pub child_value : Child T → Option T
  unfolding node_value
  child_value absent = none
  child_value (child n) = node_value n

  -- The child, made if it is nil.
  unfoldable pub child_or_new : Child T → Node T
  unfolding new_node
  child_or_new absent = new_node
  child_or_new (child n) = n

  unfoldable pub lookup : Children T → Name → Child T
  lookup nil seg = absent
  lookup (entry k n ch) seg = if name_eq k seg then child n else lookup ch seg

  unfoldable pub store : Children T → Name → Node T → Children T
  store nil seg m = entry seg m nil
  store (entry k n ch) seg m = if name_eq k seg then entry k m ch else entry k n (store ch seg m)

  -- The loop of `Add`, and the value that it leaves at its end.
  unfoldable pub add_segments : Node T → List Name → T → Node T
  unfolding child_or_new lookup store
  add_segments (node ch w g v) [] value = node ch w g (some value)
  add_segments (node ch w g v) (seg ∷ rest) value =
      let at_star = add_segments (child_or_new w) rest value in
      let at_glob = add_segments (child_or_new g) rest value in
      let at_name = add_segments (child_or_new (lookup ch seg)) rest value in
      if name_eq seg star
      then node ch (child at_star) g v
      else if name_eq seg globstar
      then node ch w (child at_glob) v
      else node (store ch seg at_name) w g v

  -- The first answer of `search` over the suffixes of the segments, the longest first.
  unfoldable pub first_suffix : (List Name → Option T) → List Name → Option T
  first_suffix f [] = f []
  first_suffix f (seg ∷ rest) = or_else (f (seg ∷ rest)) (first_suffix f rest)

unfoldable mutual
  unfolding child_value node_value first_suffix

  pub search : {T : Type 0} → Node T → List Name → Option T
  search (node ch w g v) [] = or_else v (or_else (child_value w) (child_value g))
  search (node ch w g v) (seg ∷ rest) =
      or_else (search_name ch seg rest)
        (or_else (search_star w rest) (search_globstar g (seg ∷ rest)))

  pub search_name : {T : Type 0} → Children T → Name → List Name → Option T
  search_name nil seg rest = none
  search_name (entry k n ch) seg rest =
      if name_eq k seg then search n rest else search_name ch seg rest

  pub search_star : {T : Type 0} → Child T → List Name → Option T
  search_star absent rest = none
  search_star (child n) rest = search n rest

  pub search_globstar : {T : Type 0} → Child T → List Name → Option T
  search_globstar absent segments = none
  search_globstar (child n) segments = or_else (node_value n) (first_suffix (search n) segments)
