-- ===== src/Patterns/Evaluated.antt =====
-- pkg/dnscrypt/pattern_matcher.go: what Eval's verdict stands for.
use mathlib.Core.List.{reverse, reverse-reverse, Memᴰ}
use mathlib.Core.List.Memᴰ.{head, tail}
use mathlib.Core.Path.{subst}
use proksitool.Base.{
  OnSome, ◌≡◌, inl, inr, refl, ◌∙◌, ap, Bool, true, false, ◌&&◌, List, [], ◌∷◌, ◌++◌, Option, none,
  some, ltb, length, take, if_cases, Option-cases,
}
use proksitool.Cache.Entries.{find}
use proksitool.Trie.Domain.{Name, name_eq}
use proksitool.Patterns.{
  IsPrefix, PrefixTrie, PrefixTrieLaws, Matcher, has_substring, last_index, Verdict, at_label,
  label_verdict, or_else, exact_verdict, suffix_reason, parent_verdict, suffix_verdict,
  prefix_verdict, substring_verdict, pattern_verdict, eval,
}
use proksitool.Patterns.Labels.{Below, Cut, Cut-reverse, at_label-Cut, Cut-take}

module _ {V T : Type 0} {pt : PrefixTrie V T} (laws : PrefixTrieLaws pt)
    (glob_match : Name → Name → Option Bool) where
  -- The rule that a verdict names holds for the name.
  pub data Justified (m : Matcher V T) (q : Name) : Name × Option V → Type 0 where
    by_exact : (v : V) → find name_eq q m.exact_vals ≡ some (some v) → Justified m q (q, some v)
    by_suffix :
        (p : Name) (v : Option V)
        → laws.value m.suffixes (reverse p) ≡ some v
        → Below p q
        → Justified m q (b'*' ∷ b'.' ∷ p, v)
    by_prefix :
        (p : Name) (v : Option V)
        → laws.value m.prefixes p ≡ some v
        → IsPrefix p q
        → Justified m q (p ++ (b'*' ∷ []), v)
    by_substring :
        (s : Name)
        → Memᴰ s m.substrings
        → has_substring s q ≡ true
        → Justified m q (b'*' ∷ s ++ (b'*' ∷ []), find name_eq s m.indirect_vals)
    by_pattern :
        (p : Name)
        → Memᴰ p m.patterns
        → glob_match p q ≡ some true
        → Justified m q (p, find name_eq p m.indirect_vals)

  or_else-OnSome :
      (P : Name × Option V → Type 0) (a b : Verdict V)
      → OnSome P a
      → OnSome P b
      → OnSome P (or_else a b)
  unfolding or_else
  or_else-OnSome P none b ha hb = hb
  or_else-OnSome P (some r) b ha hb = ha

  exact_verdict-Justified :
      (q : Name) (m : Matcher V T) → OnSome (Justified m q) (exact_verdict q m)
  unfolding exact_verdict
  exact_verdict-Justified q m = elim (Option-cases (find name_eq q m.exact_vals)) [
    | inl e ↦ rw (e, exact_verdict) tt
    | inr (none, e) ↦ rw (e, exact_verdict) tt
    | inr (some v, e) ↦ rw (e, exact_verdict) (by_exact v e)
  ]

  suffix-Justified :
      (q k : Name) (v : Option V) (m : Matcher V T)
      → laws.value m.suffixes k ≡ some v
      → Cut k (reverse q)
      → Justified m q (suffix_reason k, v)
  unfolding suffix_reason
  suffix-Justified q k v m e cut =
      by_suffix (reverse k) v (ap (laws.value m.suffixes) (reverse-reverse k) ∙ e)
        (Cut-reverse k q cut)

  -- A match that ends where a label of `s` does, when that is also the end of one of the whole name.
  label_verdict-Justified :
      (q s : Name) (m : Matcher V T)
      → ((k : Name) → Cut k s → Cut k (reverse q))
      → OnSome (Justified m q) (label_verdict s (pt.longest_prefix m.suffixes s))
  unfolding label_verdict
  label_verdict-Justified q s m up = elim (Option-cases (pt.longest_prefix m.suffixes s)) [
    | inl e ↦ rw (e, label_verdict) tt
    | inr ((k, v), e) ↦
        let (held, begins, _) = laws.longest_some m.suffixes s k v e in
        rw (e, label_verdict)
          (if_cases (OnSome (Justified m q)) (at_label k s) _ _
            (λ h. suffix-Justified q k v m held (up k (at_label-Cut k s begins h))) (λ _. tt))
  ]

  parent_verdict-Justified :
      (q : Name) (m : Matcher V T) → OnSome (Justified m q) (parent_verdict pt (reverse q) m)
  unfolding parent_verdict
  parent_verdict-Justified q m = elim (Option-cases (last_index b'.' (reverse q))) [
    | inl e ↦ rw (e, parent_verdict) tt
    | inr (i, e) ↦
        rw (e, parent_verdict)
          (if_cases (OnSome (Justified m q)) (ltb 0 i) _ _
            (λ _.
              label_verdict-Justified q (take i (reverse q)) m (λ k. Cut-take k (reverse q) i e))
            (λ _. tt))
  ]

  suffix_verdict-Justified :
      (q : Name) (m : Matcher V T) → OnSome (Justified m q) (suffix_verdict pt (reverse q) m)
  unfolding suffix_verdict
  suffix_verdict-Justified q m = elim (Option-cases (pt.longest_prefix m.suffixes (reverse q))) [
    | inl e ↦ rw (e, suffix_verdict) tt
    | inr ((k, v), e) ↦
        let (held, begins, _) = laws.longest_some m.suffixes (reverse q) k v e in
        rw (e, suffix_verdict)
          (if_cases (OnSome (Justified m q)) (at_label k (reverse q)) _ _
            (λ h. suffix-Justified q k v m held (at_label-Cut k (reverse q) begins h))
            (λ _.
              if_cases (OnSome (Justified m q))
                (ltb (length k) (length (reverse q)) && ltb 0 (length (reverse q))) _ _
                (λ _. parent_verdict-Justified q m) (λ _. tt)))
  ]

  prefix_verdict-Justified :
      (q : Name) (m : Matcher V T) → OnSome (Justified m q) (prefix_verdict pt q m)
  unfolding prefix_verdict
  prefix_verdict-Justified q m = elim (Option-cases (pt.longest_prefix m.prefixes q)) [
    | inl e ↦ rw (e, prefix_verdict) tt
    | inr ((k, v), e) ↦
        let (held, begins, _) = laws.longest_some m.prefixes q k v e in
        rw (e, prefix_verdict) (by_prefix k v held begins)
  ]

  substring_verdict-Justified :
      (q : Name) (l : List Name) (m : Matcher V T)
      → ((s : Name) → Memᴰ s l → Memᴰ s m.substrings)
      → OnSome (Justified m q) (substring_verdict q l m)
  unfolding substring_verdict
  substring_verdict-Justified q [] m up = tt
  substring_verdict-Justified q (s ∷ l) m up =
      if_cases (OnSome (Justified m q)) (has_substring s q) _ _
        (λ h. by_substring s (up s (head refl)) h)
        (λ _. substring_verdict-Justified q l m (λ t h. up t (tail h)))

  pattern_verdict-Justified :
      (q : Name) (l : List Name) (m : Matcher V T)
      → ((p : Name) → Memᴰ p l → Memᴰ p m.patterns)
      → OnSome (Justified m q) (pattern_verdict glob_match q l m)
  unfolding pattern_verdict
  pattern_verdict-Justified q [] m up = tt
  pattern_verdict-Justified q (p ∷ l) m up = elim (Option-cases (glob_match p q)) [
    | inl e ↦ rw (e, pattern_verdict) (pattern_verdict-Justified q l m (λ t h. up t (tail h)))
    | inr (true, e) ↦ rw (e, pattern_verdict) (by_pattern p (up p (head refl)) e)
    | inr (false, e) ↦
        rw (e, pattern_verdict) (pattern_verdict-Justified q l m (λ t h. up t (tail h)))
  ]

  eval-OnSome : (q : Name) (m : Matcher V T) → OnSome (Justified m q) (eval pt glob_match q m)
  unfolding eval
  eval-OnSome q m =
      if_cases (OnSome J) (ltb (length q) 2) _ _ (λ _. tt)
        (λ _. or_else-OnSome J _ _ (exact_verdict-Justified q m) (
          or_else-OnSome J _ _ (suffix_verdict-Justified q m) (
            or_else-OnSome J _ _ (prefix_verdict-Justified q m) (
              or_else-OnSome J _ _ (substring_verdict-Justified q m.substrings m (λ s h. h))
                (pattern_verdict-Justified q m.patterns m (λ p h. h))))))
    where
      J : Name × Option V → Type 0
      J = Justified m q

  -- Whatever Eval rejects, a rule rejects: the reason it gives names a rule that was added, which holds
  -- for the name, and the value is that rule's. A suffix rule is one for the whole name or for what
  -- follows one of its dots, never for a part of a label.
  pub eval-Justified :
      (q : Name) (m : Matcher V T) (reason : Name) (v : Option V)
      → eval pt glob_match q m ≡ some (reason, v)
      → Justified m q (reason, v)
  eval-Justified q m reason v h = subst (OnSome (Justified m q)) h (eval-OnSome q m)
