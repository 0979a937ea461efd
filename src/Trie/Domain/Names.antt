-- ===== src/Trie/Domain/Names.antt =====
-- pkg/spoofdpi/internal/trie/domain.go, splitDomain and splitPattern: from text to segments.
use mathlib.Core.List.{reverse}
use proksitool.Base.{
  ℕ, ◌≡◌, ◌≢◌, ◌↔◌, refl, ◌∙◌, ap, Bool, true, false, List, [], ◌∷◌, ◌++◌, arith, ◌==◌,
  if◌then◌else◌, All, Outcome, ok, err, ◌>>=◌, Option, ≢→==,
}
use proksitool.Trie.Domain.{Name, Node, name_eq, add_segments, search}

pub name_eq_iff : (s t : Name) → (name_eq s t ≡ true) ↔ (s ≡ t)
unfolding name_eq
name_eq_iff [] [] = (λ _. refl, λ _. refl)
name_eq_iff [] (b ∷ t) = ground arith
name_eq_iff (a ∷ s) [] = ground arith
name_eq_iff (a ∷ s) (b ∷ t) = ground (arith, name_eq_iff s t)

pub name_eq_refl : (s : Name) → name_eq s s ≡ true
name_eq_refl s = (name_eq_iff s s).1 refl

abbrev pub dot : ℕ
dot = b'.'

-- `strings.TrimSuffix(domain, ".")`
unfoldable pub trim_dot : List ℕ → List ℕ
trim_dot [] = []
trim_dot (b ∷ []) = if b == dot then [] else b ∷ []
trim_dot (b ∷ c ∷ s) = b ∷ trim_dot (c ∷ s)

abbrev pub onto_first : ℕ → List Name → List Name
onto_first b [] = (b ∷ []) ∷ []
onto_first b (p ∷ parts) = (b ∷ p) ∷ parts

-- `strings.Split(domain, ".")`
unfoldable pub split_dots : List ℕ → List Name
split_dots [] = [] ∷ []
split_dots (b ∷ s) = let parts = split_dots s in if b == dot then [] ∷ parts else onto_first b parts

abbrev pub is_empty : List ℕ → Bool
is_empty [] = true
is_empty (b ∷ s) = false

unfoldable pub split_domain : List ℕ → List Name
unfolding trim_dot split_dots
split_domain domain =
    let trimmed = trim_dot domain in if is_empty trimmed then [] else reverse (split_dots trimmed)

pub data TrieError : Type 0 where
  empty_pattern : TrieError

unfoldable pub split_pattern : List ℕ → Outcome TrieError (List Name)
unfolding split_domain
split_pattern pattern = if is_empty pattern then err empty_pattern else ok (split_domain pattern)

module _ {T : Type 0} where
  -- `DomainTrie.Add` and `DomainTrie.Search`
  unfoldable pub add : Node T → List ℕ → T → Outcome TrieError (Node T)
  unfolding split_pattern add_segments
  add root pattern value = do
    segments ← split_pattern pattern
    ok (add_segments root segments value)

  unfoldable pub search_domain : Node T → List ℕ → Option T
  unfolding split_domain search
  search_domain root domain = search root (split_domain domain)

-- A label has no dot in it, and a byte.
abbrev pub IsLabel : Name → Type 0
IsLabel s = (s ≢ []) × All (λ b. b ≢ dot) s

-- `strings.Join(labels, ".")`
abbrev pub join : List Name → List ℕ
join [] = []
join (s ∷ []) = s
join (s ∷ t ∷ labels) = s ++ (dot ∷ join (t ∷ labels))

split_dots-label :
    (s rest : List ℕ) → All (λ b. b ≢ dot) s → split_dots (s ++ (dot ∷ rest)) ≡ s ∷ split_dots rest
unfolding split_dots
split_dots-label [] rest h = refl
split_dots-label (b ∷ s) rest (h, hs) = rw (≢→== b dot h, split_dots-label s rest hs)

split_dots-last : (s : List ℕ) → All (λ b. b ≢ dot) s → split_dots s ≡ s ∷ []
unfolding split_dots
split_dots-last [] h = refl
split_dots-last (b ∷ s) (h, hs) = rw (≢→== b dot h, split_dots-last s hs)

split_dots-join :
    (s : Name) (labels : List Name)
    → All IsLabel (s ∷ labels)
    → split_dots (join (s ∷ labels)) ≡ s ∷ labels
split_dots-join s [] ((_, h), _) = split_dots-last s h
split_dots-join s (t ∷ labels) ((_, h), hs) =
    split_dots-label s (join (t ∷ labels)) h ∙ ap (◌∷◌ s) (split_dots-join t labels hs)

-- The text does not end in a dot.
abbrev EndsPlain : List ℕ → Type 0
EndsPlain [] = ⊥
EndsPlain (b ∷ []) = b ≢ dot
EndsPlain (b ∷ c ∷ s) = EndsPlain (c ∷ s)

EndsPlain-append : (s t : List ℕ) → EndsPlain t → EndsPlain (s ++ t)
EndsPlain-append [] t h = h
EndsPlain-append (b ∷ []) [] h = absurd h
EndsPlain-append (b ∷ []) (c ∷ t) h = h
EndsPlain-append (b ∷ c ∷ s) t h = EndsPlain-append (c ∷ s) t h

EndsPlain-label : (s : Name) → IsLabel s → EndsPlain s
EndsPlain-label [] (h, _) = h refl
EndsPlain-label (b ∷ []) (_, (h, _)) = h
EndsPlain-label (b ∷ c ∷ s) (_, (_, hs)) = EndsPlain-label (c ∷ s) ((λ e. cc), hs)

EndsPlain-join :
    (s : Name) (labels : List Name) → All IsLabel (s ∷ labels) → EndsPlain (join (s ∷ labels))
EndsPlain-join s [] (h, _) = EndsPlain-label s h
EndsPlain-join s (t ∷ labels) (_, hs) =
    EndsPlain-append s (dot ∷ join (t ∷ labels))
      (EndsPlain-append (dot ∷ []) (join (t ∷ labels)) (EndsPlain-join t labels hs))

trim_dot-EndsPlain : (s : List ℕ) → EndsPlain s → trim_dot s ≡ s
unfolding trim_dot
trim_dot-EndsPlain [] h = refl
trim_dot-EndsPlain (b ∷ []) h = rw (≢→== b dot h)
trim_dot-EndsPlain (b ∷ c ∷ s) h = ap (◌∷◌ b) (trim_dot-EndsPlain (c ∷ s) h)

trim_dot-dot : (s : List ℕ) → trim_dot (s ++ (dot ∷ [])) ≡ s
unfolding trim_dot
trim_dot-dot [] = refl
trim_dot-dot (b ∷ []) = refl
trim_dot-dot (b ∷ c ∷ s) = ap (◌∷◌ b) (trim_dot-dot (c ∷ s))

EndsPlain→is_empty : (s : List ℕ) → EndsPlain s → is_empty s ≡ false
EndsPlain→is_empty [] h = absurd h
EndsPlain→is_empty (b ∷ s) h = refl

-- A domain of labels joined by dots splits into its labels, the last one first, with or without a
-- dot at its end.
pub split_domain-join :
    (s : Name) (labels : List Name)
    → All IsLabel (s ∷ labels)
    → (split_domain (join (s ∷ labels)) ≡ reverse (s ∷ labels))
      × (split_domain (join (s ∷ labels) ++ (dot ∷ [])) ≡ reverse (s ∷ labels))
unfolding split_domain
split_domain-join s labels h =
    let text = join (s ∷ labels) in
    let plain = EndsPlain-join s labels h in
    let full = EndsPlain→is_empty text plain in
    let parts = split_dots-join s labels h in
    (rw (trim_dot-EndsPlain text plain, full, parts), rw (trim_dot-dot text, full, parts))
