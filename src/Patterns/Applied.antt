-- ===== src/Patterns/Applied.antt =====
-- pkg/dnscrypt/pattern_matcher.go: which rules make Eval reject a name, and what Add does for them.
use mathlib.Core.List.{reverse, reverse-append, Memᴰ}
use mathlib.Core.List.Memᴰ.{head, tail}
use mathlib.Core.List.{append-nil}
use proksitool.Base.{
  ℕ, suc, ◌≤◌, ◌≡◌, ◌≢◌, inl, inr, refl, sym, ◌∙◌, ap, Bool, true, false, List, [], ◌∷◌, ◌++◌,
  Option, none, some, length, take, arith, if_cases, Option-cases, length-append, take-append,
  le→ltb,
}
use proksitool.Cache.Entries.{find}
use proksitool.Trie.Domain.{Name, name_eq}
use proksitool.Patterns.{
  IsPrefix, PrefixTrie, PrefixTrieLaws, Matcher, has_substring, Verdict, or_else, exact_verdict,
  suffix_verdict, prefix_verdict, substring_verdict, pattern_verdict, eval,
}
use proksitool.Patterns.Labels.{Below, Cut, Below-reverse, Cut-at_label}

length-snoc : (s : Name) (b : ℕ) → length (s ++ (b ∷ [])) ≡ suc (length s)
length-snoc s b = length-append s (b ∷ []) ∙ omega arith

pub length-reverse : (s : Name) → length (reverse s) ≡ length s
length-reverse [] = refl
length-reverse (b ∷ s) =
    ap length (reverse-append (b ∷ []) s) ∙ length-snoc (reverse s) b ∙ ap suc (length-reverse s)

-- Two beginnings of one name, of the same length, are equal.
IsPrefix-unique : (j k q : Name) → IsPrefix j q → IsPrefix k q → length j ≡ length k → j ≡ k
IsPrefix-unique j k q (s, e) (t, f) h =
    sym (take-append j s)
    ∙ ap (take (length j)) (sym e ∙ f)
    ∙ ap (λ n. take n (k ++ t)) h
    ∙ take-append k t

Cut-IsPrefix : (k r : Name) → Cut k r → IsPrefix k r
Cut-IsPrefix k r (inl e) = ([], e ∙ sym (append-nil k))
Cut-IsPrefix k r (inr (rest, e)) = (b'.' ∷ rest, e)

module _ {V T : Type 0} {pt : PrefixTrie V T} (laws : PrefixTrieLaws pt)
    (glob_match : Name → Name → Option Bool) where
  -- A rule of the matcher holds for the name: for an exact rule, its value is not nil; for a suffix
  -- rule, no longer one of the matcher is an end of the name, at a label or not.
  pub data Applies (m : Matcher V T) (q : Name) : Type 0 where
    exactly : (v : V) → find name_eq q m.exact_vals ≡ some (some v) → Applies m q
    below :
        (p : Name) (v : Option V)
        → laws.value m.suffixes (reverse p) ≡ some v
        → Below p q
        → ((j : Name) (w : Option V)
            → laws.value m.suffixes j ≡ some w
            → IsPrefix j (reverse q)
            → length j ≤ length p)
        → Applies m q
    begins :
        (p : Name) (v : Option V) → laws.value m.prefixes p ≡ some v → IsPrefix p q → Applies m q
    contains : (s : Name) → Memᴰ s m.substrings → has_substring s q ≡ true → Applies m q
    matches : (p : Name) → Memᴰ p m.patterns → glob_match p q ≡ some true → Applies m q

  or_else-right : (a b : Verdict V) → b ≢ none → or_else a b ≢ none
  unfolding or_else
  or_else-right none b h = h
  or_else-right (some r) b h = λ e. cc

  or_else-left : (a b : Verdict V) → a ≢ none → or_else a b ≢ none
  unfolding or_else
  or_else-left none b h = absurd (h refl)
  or_else-left (some r) b h = λ e. cc

  suffix_verdict-rejects :
      (p q : Name) (v : Option V) (m : Matcher V T)
      → laws.value m.suffixes (reverse p) ≡ some v
      → Below p q
      → ((j : Name) (w : Option V)
          → laws.value m.suffixes j ≡ some w
          → IsPrefix j (reverse q)
          → length j ≤ length p)
      → suffix_verdict pt (reverse q) m ≢ none
  unfolding suffix_verdict
  suffix_verdict-rejects p q v m held ends longest =
      elim (Option-cases (pt.longest_prefix m.suffixes (reverse q))) [
        | inl e ↦ absurd (laws.longest_none m.suffixes (reverse q) e (reverse p) v held front)
        | inr ((k, w), e) ↦
            let (there, front', most) = laws.longest_some m.suffixes (reverse q) k w e in
            let same : length (reverse p) ≡ length k =
              omega (
                arith,
                most (reverse p) v held front,
                longest k w there front',
                length-reverse p,
              ) in
            let is : reverse p ≡ k = IsPrefix-unique (reverse p) k (reverse q) front front' same in
            rw (e, suffix_verdict, sym is, Cut-at_label (reverse p) (reverse q) cut) (λ x. cc)
      ]
    where
      cut : Cut (reverse p) (reverse q)
      cut = Below-reverse p q ends

      front : IsPrefix (reverse p) (reverse q)
      front = Cut-IsPrefix (reverse p) (reverse q) cut

  prefix_verdict-rejects :
      (p q : Name) (v : Option V) (m : Matcher V T)
      → laws.value m.prefixes p ≡ some v
      → IsPrefix p q
      → prefix_verdict pt q m ≢ none
  unfolding prefix_verdict
  prefix_verdict-rejects p q v m held front = elim (Option-cases (pt.longest_prefix m.prefixes q)) [
    | inl e ↦ absurd (laws.longest_none m.prefixes q e p v held front)
    | inr (r, e) ↦ rw (e, prefix_verdict) (λ x. cc)
  ]

  substring_verdict-rejects :
      (s q : Name) (l : List Name) (m : Matcher V T)
      → Memᴰ s l
      → has_substring s q ≡ true
      → substring_verdict q l m ≢ none
  unfolding substring_verdict
  substring_verdict-rejects s q [] m i h = elim i [ ]
  substring_verdict-rejects s q (t ∷ l) m (head e) h = rw (sym e, h) (λ x. cc)
  substring_verdict-rejects s q (t ∷ l) m (tail i) h =
      if_cases (λ v. v ≢ none) (has_substring t q) _ _ (λ _ x. cc)
        (λ _. substring_verdict-rejects s q l m i h)

  pattern_verdict-rejects :
      (p q : Name) (l : List Name) (m : Matcher V T)
      → Memᴰ p l
      → glob_match p q ≡ some true
      → pattern_verdict glob_match q l m ≢ none
  unfolding pattern_verdict
  pattern_verdict-rejects p q [] m i h = elim i [ ]
  pattern_verdict-rejects p q (t ∷ l) m (head e) h = rw (pattern_verdict, sym e, h) (λ x. cc)
  pattern_verdict-rejects p q (t ∷ l) m (tail i) h =
      let rest = pattern_verdict-rejects p q l m i h in
      elim (Option-cases (glob_match t q)) [
        | inl e ↦ rw (e, pattern_verdict) rest
        | inr (true, e) ↦ rw (e, pattern_verdict) (λ x. cc)
        | inr (false, e) ↦ rw (e, pattern_verdict) rest
      ]

  -- Eval rejects every name of two bytes at least that a rule holds for, whichever the kind of the
  -- rule: an exact rule if its value is not nil, and a suffix rule if no longer one is an end of the
  -- name.
  pub eval-Applies :
      (q : Name) (m : Matcher V T) → 2 ≤ length q → Applies m q → eval pt glob_match q m ≢ none
  unfolding eval exact_verdict
  eval-Applies q m long a = rw (le→ltb (length q) 2 long) (any a)
    where
      any :
          Applies m q
          → or_else (exact_verdict q m) (
              or_else (suffix_verdict pt (reverse q) m) (
                or_else (prefix_verdict pt q m) (
                  or_else
                    (substring_verdict q m.substrings m)
                    (pattern_verdict glob_match q m.patterns m))))
            ≢ none
      any (exactly v e) = or_else-left _ _ (rw (e, exact_verdict) (λ x. cc))
      any (below p v held b longest) =
          or_else-right _ _ (or_else-left _ _ (suffix_verdict-rejects p q v m held b longest))
      any (begins p v held b) =
          or_else-right _ _
            (or_else-right _ _ (or_else-left _ _ (prefix_verdict-rejects p q v m held b)))
      any (contains s i h) = or_else-right _ _ (
          or_else-right _ _ (
            or_else-right _ _
              (or_else-left _ _ (substring_verdict-rejects s q m.substrings m i h))))
      any (matches p i h) = or_else-right _ _ (
          or_else-right _ _
            (or_else-right _ _ (or_else-right _ _ (pattern_verdict-rejects p q m.patterns m i h))))
