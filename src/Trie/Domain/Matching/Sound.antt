-- ===== src/Trie/Domain/Matching/Sound.antt =====
-- pkg/spoofdpi/internal/trie/domain.go, Search: an answer is the value of a pattern that matches.
use proksitool.Base.{◌≡◌, refl, List, [], ◌∷◌, Option, some, inl, inr, All, ◌⊎◌, Bool-cases}
use proksitool.Trie.Domain.{
  Name, Node, Child, Children, node, absent, child, nil, entry, name_eq, star, globstar, node_value,
  child_value, lookup, search, search_name, search_star, search_globstar,
}
use proksitool.Trie.Domain.Stored.{get}
use proksitool.Trie.Domain.Matching.{
  IsPlain, Suffix, Matches, done, exact, one, apex, any, skip, All-Suffix, or_else-cases,
  first_suffix-some,
}

-- A pattern with the value is stored and matches.
abbrev pub Found : {T : Type 0} → Node T → List Name → T → Type 0
Found n segments v = (p : List Name) × (get n p ≡ some v) × Matches p segments

module _ {T : Type 0} (ch : Children T) (w g : Child T) (o : Option T) where
  Found-name :
      (seg : Name) (rest : List Name) (v : T) (m : Node T)
      → IsPlain seg
      → lookup ch seg ≡ child m
      → Found m rest v
      → Found (node ch w g o) (seg ∷ rest) v
  unfolding get
  Found-name seg rest v m (not_star, not_glob) here (p, stored, matches) =
      (seg ∷ p, rw (not_star, not_glob, here) stored, exact (not_star, not_glob) matches)

  Found-star :
      (seg : Name) (rest : List Name) (v : T) (m : Node T)
      → w ≡ child m
      → Found m rest v
      → Found (node ch w g o) (seg ∷ rest) v
  unfolding get name_eq
  Found-star seg rest v m here (p, stored, matches) = (star ∷ p, rw here stored, one refl matches)

  Found-globstar :
      (seg : Name) (rest r : List Name) (v : T) (m : Node T)
      → g ≡ child m
      → Suffix r (seg ∷ rest)
      → Found m r v
      → Found (node ch w g o) (seg ∷ rest) v
  unfolding get name_eq
  Found-globstar seg rest r v m here suffix (p, stored, matches) =
      (globstar ∷ p, rw here stored, skip refl suffix matches)

  Found-any :
      (segments : List Name) (v : T) (m : Node T)
      → g ≡ child m
      → node_value m ≡ some v
      → Found (node ch w g o) segments v
  unfolding get name_eq
  Found-any segments v m here stored = (globstar ∷ [], rw here stored, any refl)

  Found-apex :
      (v : T) (m : Node T) → w ≡ child m → node_value m ≡ some v → Found (node ch w g o) [] v
  unfolding get name_eq
  Found-apex v m here stored = (star ∷ [], rw here stored, apex refl)

  Found-here : (v : T) → o ≡ some v → Found (node ch w g o) [] v
  unfolding get
  Found-here v here = ([], here, done)

child_value-some :
    {T : Type 0} (c : Child T) (v : T)
    → child_value c ≡ some v
    → (m : Node T) × (c ≡ child m) × (node_value m ≡ some v)
unfolding child_value
child_value-some absent v h = cc
child_value-some (child m) v h = (m, refl, h)

-- What the search below the `**` child finds.
abbrev Below : {T : Type 0} → Child T → List Name → T → Type 0
Below {T} g segments v =
    (m : Node T) × (g ≡ child m)
    × ((node_value m ≡ some v) ⊎ ((r : List Name) × Suffix r segments × Found m r v))

-- What the search below the child of a name finds.
abbrev BelowName : {T : Type 0} → Children T → Name → List Name → T → Type 0
BelowName {T} ch seg rest v = (m : Node T) × (lookup ch seg ≡ child m) × Found m rest v

Found-entry :
    {T : Type 0} (k : Name) (n : Node T) (ch : Children T) (seg : Name) (rest : List Name) (v : T)
    → (search n rest ≡ some v → Found n rest v)
    → (search_name ch seg rest ≡ some v → BelowName ch seg rest v)
    → search_name (entry k n ch) seg rest ≡ some v
    → BelowName (entry k n ch) seg rest v
unfolding search lookup
Found-entry k n ch seg rest v here there h = elim (Bool-cases (name_eq k seg)) [
  | inl e ↦ (n, rw e, here (rw e at h))
  | inr e ↦ let (m, below, found) = there (rw e at h) in (m, rw e below, found)
]

mutual
  unfolding search

  sound :
      {T : Type 0} (n : Node T) (segments : List Name) (v : T)
      → All IsPlain segments
      → search n segments ≡ some v
      → Found n segments v
  sound (node ch w g o) [] v plain h = elim (or_else-cases o _ v h) [
    | inl here ↦ Found-here ch w g o v here
    | inr (_, h') ↦ elim (or_else-cases (child_value w) (child_value g) v h') [
      | inl at_star ↦
          let (m, e, stored) = child_value-some w v at_star in Found-apex ch w g o v m e stored
      | inr (_, at_glob) ↦
          let (m, e, stored) = child_value-some g v at_glob in Found-any ch w g o [] v m e stored
    ]
  ]
  sound (node ch w g o) (seg ∷ rest) v (plain, plains) h =
      elim (or_else-cases (search_name ch seg rest) _ v h) [
        | inl at_name ↦
            let (m, e, found) = sound_name ch seg rest v plains at_name in
            Found-name ch w g o seg rest v m plain e found
        | inr (_, h') ↦
            elim (or_else-cases (search_star w rest) (search_globstar g (seg ∷ rest)) v h') [
              | inl at_star ↦
                  let (m, e, found) = sound_star w rest v plains at_star in
                  Found-star ch w g o seg rest v m e found
              | inr (_, at_glob) ↦
                  let (m, e, below) = sound_globstar g (seg ∷ rest) v (plain, plains) at_glob in
                  elim below [
                    | inl stored ↦ Found-any ch w g o (seg ∷ rest) v m e stored
                    | inr (r, suffix, found) ↦ Found-globstar ch w g o seg rest r v m e suffix found
                  ]
            ]
      ]

  sound_name :
      {T : Type 0} (ch : Children T) (seg : Name) (rest : List Name) (v : T)
      → All IsPlain rest
      → search_name ch seg rest ≡ some v
      → BelowName ch seg rest v
  sound_name nil seg rest v plains h = cc
  sound_name (entry k n ch) seg rest v plains h =
      Found-entry k n ch seg rest v (sound n rest v plains) (sound_name ch seg rest v plains) h

  sound_star :
      {T : Type 0} (c : Child T) (rest : List Name) (v : T)
      → All IsPlain rest
      → search_star c rest ≡ some v
      → (m : Node T) × (c ≡ child m) × Found m rest v
  sound_star absent rest v plains h = cc
  sound_star (child n) rest v plains h = (n, refl, sound n rest v plains h)

  sound_globstar :
      {T : Type 0} (c : Child T) (segments : List Name) (v : T)
      → All IsPlain segments
      → search_globstar c segments ≡ some v
      → Below c segments v
  sound_globstar absent segments v plains h = cc
  sound_globstar (child n) segments v plains h = elim (or_else-cases (node_value n) _ v h) [
    | inl here ↦ (n, refl, inl here)
    | inr (_, h') ↦
        let (r, suffix, e) = first_suffix-some (search n) segments v h' in
        (n, refl, inr (r, suffix, sound n r v (All-Suffix IsPlain suffix plains) e))
  ]

-- On a domain without wildcards in it, what Search returns is the value stored for a pattern that
-- matches the domain.
pub search-Found :
    {T : Type 0} (n : Node T) (segments : List Name) (v : T)
    → All IsPlain segments
    → search n segments ≡ some v
    → Found n segments v
search-Found n segments v plain h = sound n segments v plain h
