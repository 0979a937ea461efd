-- ===== src/Tests/Patterns.antt =====
-- pkg/dnscrypt/pattern_matcher.go: rules in a trie that is a list, without any glob.
use mathlib.Core.Path.{subst}
use proksitool.Base.{
  ℕ, ◌≡◌, ◌≤◌, ◌≢◌, refl, sym, ◌∙◌, ap, inl, inr, Bool, true, false, false≢true, ◌⊎◌, ◌<◌, List, [],
  ◌∷◌, ◌++◌, Option, none, some, length, if◌then◌else◌, ltb, ◌==◌, ok, err, arith, if_cases,
  Bool-cases, Option-cases, &&-split,
}
use proksitool.Cache.Entries.{find}
use proksitool.Trie.Domain.{Name, name_eq}
use proksitool.Trie.Domain.Names.{name_eq_refl, name_eq_iff}
use proksitool.Patterns.{
  IsPrefix, PrefixTrie, PrefixTrieLaws, Matcher, suffix, starts_with, classify, eval, exact_verdict,
  suffix_verdict, parent_verdict, label_verdict, prefix_verdict, substring_verdict, pattern_verdict,
  or_else, suffix_reason, at_label, last_index, nonempty, is_glob_candidate, glob_from,
  ends_with_byte, starts_with_byte, trim_dot_prefix, lower_byte, syntax_error,
}
use proksitool.Patterns.Evaluated.{Justified, eval-Justified}

abbrev Entries : Type 0
Entries = List (Name × Option ℕ)

unfoldable list_insert : Name → Option ℕ → Entries → Entries
list_insert k v t = elim (find name_eq k t) [ none ↦ (k, v) ∷ t | some w ↦ t ]

unfoldable longer : Name → Option ℕ → Option (Name × Option ℕ) → Option (Name × Option ℕ)
longer k v none = some (k, v)
longer k v (some (j, w)) = if ltb (length k) (length j) then some (j, w) else some (k, v)

unfoldable list_longest : Entries → Name → Option (Name × Option ℕ)
unfolding longer
list_longest [] q = none
list_longest ((k, v) ∷ t) q =
    let rest = list_longest t q in if starts_with k q then longer k v rest else rest

abbrev list_trie : PrefixTrie ℕ Entries
list_trie = record { insert = list_insert; longest_prefix = list_longest }

starts_with-IsPrefix : (k q : Name) → starts_with k q ≡ true → IsPrefix k q
unfolding starts_with
starts_with-IsPrefix [] q h = (q, refl)
starts_with-IsPrefix (b ∷ k) [] h = cc
starts_with-IsPrefix (b ∷ k) (c ∷ q) h =
    let (same, more) = &&-split (b == c) (starts_with k q) h in
    let (rest, e) = starts_with-IsPrefix k q more in
    (rest, ap (λ (s : Name). c ∷ s) e ∙ ap (λ (x : ℕ). x ∷ k ++ rest) (ground (arith, same)))

starts_with-append : (k rest : Name) → starts_with k (k ++ rest) ≡ true
unfolding starts_with
starts_with-append [] rest = refl
starts_with-append (b ∷ k) rest = ground (arith, starts_with-append k rest)

IsPrefix-starts_with : (k q : Name) → IsPrefix k q → starts_with k q ≡ true
IsPrefix-starts_with k q (rest, e) = ap (starts_with k) e ∙ starts_with-append k rest

list_insert-find :
    (k q : Name) (v : Option ℕ) (t : Entries)
    → find name_eq q (list_insert k v t) ≡ (
        if name_eq k q
        then elim (find name_eq k t) [ none ↦ some v | some w ↦ some w ]
        else find name_eq q t)
unfolding list_insert find
list_insert-find k q v t = elim (Option-cases (find name_eq k t)) [
  | inl e ↦ rw (e, list_insert) refl
  | inr (w, e) ↦ elim (Bool-cases (name_eq k q)) [
    | inl h ↦ rw (e, list_insert, h) (ap (λ j. find name_eq j t) (sym ((name_eq_iff k q).0 h)) ∙ e)
    | inr h ↦ rw (e, list_insert, h) refl
  ]
]

abbrev Best : Entries → Name → Option (Name × Option ℕ) → Type 0
Best t q none = (j : Name) (w : Option ℕ) → find name_eq j t ≡ some w → ¬ IsPrefix j q
Best t q (some (k, v)) =
    (find name_eq k t ≡ some v)
    × IsPrefix k q
    × ((j : Name) (w : Option ℕ) → find name_eq j t ≡ some w → IsPrefix j q → length j ≤ length k)

find-first : (k : Name) (v : Option ℕ) (t : Entries) → find name_eq k ((k, v) ∷ t) ≡ some v
unfolding find
find-first k v t = rw (name_eq_refl k) refl

find-cons :
    (k j : Name) (v w : Option ℕ) (t : Entries)
    → find name_eq j ((k, v) ∷ t) ≡ some w
    → (k ≡ j) ⊎ (find name_eq j t ≡ some w)
unfolding find
find-cons k j v w t h = elim (Bool-cases (name_eq k j)) [
  | inl e ↦ inl ((name_eq_iff k j).0 e)
  | inr e ↦ inr (sym (rw e refl) ∙ h)
]

find-later :
    (k j : Name) (v : Option ℕ) (t : Entries)
    → k ≢ j
    → find name_eq j ((k, v) ∷ t) ≡ find name_eq j t
unfolding find
find-later k j v t ne = elim (Bool-cases (name_eq k j)) [
  | inl e ↦ absurd (ne ((name_eq_iff k j).0 e))
  | inr e ↦ rw e refl
]

Best-skip :
    (k q : Name) (v : Option ℕ) (t : Entries) (r : Option (Name × Option ℕ))
    → ¬ IsPrefix k q
    → Best t q r
    → Best ((k, v) ∷ t) q r
Best-skip k q v t none out b = λ j w h i. elim (find-cons k j v w t h) [
  | inl e ↦ out (subst (λ x. IsPrefix x q) (sym e) i)
  | inr f ↦ b j w f i
]
Best-skip k q v t (some (l, u)) out (held, i, most) = (
  find-later k l v t (λ e. out (subst (λ x. IsPrefix x q) (sym e) i)) ∙ held,
  i,
  λ j w h i'. elim (find-cons k j v w t h) [
    | inl e ↦ absurd (out (subst (λ x. IsPrefix x q) (sym e) i'))
    | inr f ↦ most j w f i'
  ],
)

Best-longer :
    (k q : Name) (v : Option ℕ) (t : Entries) (r : Option (Name × Option ℕ))
    → IsPrefix k q
    → Best t q r
    → Best ((k, v) ∷ t) q (longer k v r)
unfolding longer
Best-longer k q v t none i b = (
  find-first k v t,
  i,
  λ j w h i'. elim (find-cons k j v w t h) [
    | inl e ↦ rw e (omega arith)
    | inr f ↦ absurd (b j w f i')
  ],
)
Best-longer k q v t (some (l, u)) i (held, i', most) =
    if_cases (Best ((k, v) ∷ t) q) (ltb (length k) (length l)) _ _
      (λ h.
        let lt : length k < length l = ground (arith, h) in
        (
          find-later k l v t (λ e. absurd (omega (arith, ap length e))) ∙ held,
          i',
          λ j w f i''. elim (find-cons k j v w t f) [
            | inl e ↦ omega (arith, ap length e)
            | inr g ↦ most j w g i''
          ],
        ))
      (λ h.
        let le : length l ≤ length k = ground (arith, h) in
        (
          find-first k v t,
          i,
          λ j w f i''. elim (find-cons k j v w t f) [
            | inl e ↦ rw e (omega arith)
            | inr g ↦ omega (arith, most j w g i'')
          ],
        ))

list_longest-Best : (t : Entries) (q : Name) → Best t q (list_longest t q)
unfolding list_longest find
list_longest-Best [] q = λ j w h i. cc
list_longest-Best ((k, v) ∷ t) q =
    if_cases (Best ((k, v) ∷ t) q) (starts_with k q) _ _
      (λ h.
        Best-longer k q v t (list_longest t q) (starts_with-IsPrefix k q h) (list_longest-Best t q))
      (λ h.
        Best-skip k q v t (list_longest t q)
          (λ i. absurd (false≢true (sym h ∙ IsPrefix-starts_with k q i))) (list_longest-Best t q))

list_trie-Laws : PrefixTrieLaws list_trie
list_trie-Laws = record {
  value = λ t k. find name_eq k t;
  value-insert = list_insert-find;
  longest_some = λ t q k v e. subst (Best t q) e (list_longest-Best t q);
  longest_none = λ t q e. subst (Best t q) e (list_longest-Best t q);
}

abbrev no_glob : Name → Name → Option Bool
no_glob p q = some false

abbrev no_rules : Matcher ℕ Entries
no_rules = record {
  prefixes = [];
  suffixes = [];
  substrings = [];
  patterns = [];
  exact_vals = [];
  indirect_vals = [];
}

-- `com` and `e.com`.
abbrev dot_com : Name
dot_com = b'c' ∷ b'o' ∷ b'm' ∷ []

abbrev e_dot_com : Name
e_dot_com = b'e' ∷ b'.' ∷ dot_com

-- The rules `com` and `m.dot_com`, the suffixes reversed.
abbrev two_suffixes : Matcher ℕ Entries
two_suffixes = record no_rules {
  suffixes =
      (b'm' ∷ b'o' ∷ b'c' ∷ [], some 1) ∷ (b'm' ∷ b'o' ∷ b'c' ∷ b'.' ∷ b'e' ∷ [], some 2) ∷ [];
}

classified : classify no_glob (b'*' ∷ b'.' ∷ b'C' ∷ b'o' ∷ b'm' ∷ []) ≡ ok (suffix, dot_com)
unfolding classify is_glob_candidate glob_from starts_with_byte ends_with_byte trim_dot_prefix
    nonempty lower_byte
classified = refl

-- `*` alone and a lone dot are errors.
not_classified :
    (classify no_glob (b'*' ∷ []) ≡ err syntax_error)
    × (classify no_glob (b'.' ∷ []) ≡ err syntax_error)
unfolding classify is_glob_candidate glob_from starts_with_byte ends_with_byte trim_dot_prefix
    nonempty lower_byte
not_classified = (refl, refl)

rejected :
    eval list_trie no_glob (b'a' ∷ b'.' ∷ dot_com) two_suffixes
    ≡ some (b'*' ∷ b'.' ∷ dot_com, some 1)
unfolding eval exact_verdict find suffix_verdict list_longest starts_with longer at_label
    suffix_reason or_else
rejected = refl

-- `a.b.te.com` is below `com`, but the longer rule `e.com`, which is an end of it within a label, is
-- found both times.
overlooked :
    eval list_trie no_glob (b'a' ∷ b'.' ∷ b'b' ∷ b'.' ∷ b't' ∷ e_dot_com) (record two_suffixes {
      suffixes =
          (b'm' ∷ b'o' ∷ b'c' ∷ [], some 1) ∷ (b'm' ∷ b'o' ∷ b'c' ∷ b'.' ∷ b'e' ∷ [], some 2) ∷ [];
    })
    ≡ none
unfolding eval exact_verdict find suffix_verdict parent_verdict label_verdict prefix_verdict
    substring_verdict pattern_verdict last_index list_longest starts_with longer at_label
    suffix_reason or_else
overlooked = refl

eval-Justified_example :
    Justified list_trie-Laws no_glob two_suffixes
      (b'a' ∷ b'.' ∷ dot_com)
      (b'*' ∷ b'.' ∷ dot_com, some 1)
eval-Justified_example =
    eval-Justified list_trie-Laws no_glob (b'a' ∷ b'.' ∷ dot_com) two_suffixes
      (b'*' ∷ b'.' ∷ dot_com) (some 1) rejected

-- The rule `co*`.
abbrev one_prefix : Matcher ℕ Entries
one_prefix = record no_rules { prefixes = (b'c' ∷ b'o' ∷ [], none) ∷ [] }
