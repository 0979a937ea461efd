-- ===== src/Patterns/Labels.antt =====
-- pkg/dnscrypt/pattern_matcher.go: where the labels of a name end, from the front and from the back.
use mathlib.Core.List.{reverse, reverse-append, reverse-reverse, append-nil, append_assoc}
use proksitool.Base.{
  ℕ, ◌+◌, ◌<◌, ◌≡◌, ◌⊎◌, inl, inr, refl, sym, ◌∙◌, ap, true, ◌==◌, [], ◌∷◌, ◌++◌, some, length,
  get_elem?, take, drop, arith, Option-cases, length-append, take-append-drop, drop-get_elem?,
}
use proksitool.Trie.Domain.{Name}
use proksitool.Patterns.{IsPrefix, last_index, at_label}

-- The name is `p`, or ends in a dot and `p`.
abbrev pub Below : Name → Name → Type 0
Below p q = (q ≡ p) ⊎ ((front : Name) × (q ≡ front ++ (b'.' ∷ p)))

-- The same from the other end.
abbrev pub Cut : Name → Name → Type 0
Cut k r = (r ≡ k) ⊎ ((rest : Name) × (r ≡ k ++ (b'.' ∷ rest)))

pub Cut-reverse : (k q : Name) → Cut k (reverse q) → Below (reverse k) q
Cut-reverse k q (inl e) = inl (sym (reverse-reverse q) ∙ ap reverse e)
Cut-reverse k q (inr (rest, e)) = inr (
  reverse rest,
  sym (reverse-reverse q)
      ∙ ap reverse e
      ∙ reverse-append k (b'.' ∷ rest)
      ∙ rw (reverse-append (b'.' ∷ []) rest) (append_assoc (reverse rest) (b'.' ∷ []) (reverse k)),
)

pub Below-reverse : (p q : Name) → Below p q → Cut (reverse p) (reverse q)
Below-reverse p q (inl e) = inl (ap reverse e)
Below-reverse p q (inr (front, e)) = inr (
  reverse front,
  ap reverse e
      ∙ reverse-append front (b'.' ∷ p)
      ∙ rw (reverse-append (b'.' ∷ []) p) (append_assoc (reverse p) (b'.' ∷ []) (reverse front)),
)

get_elem?-append_head : (k rest : Name) (c : ℕ) → get_elem? (k ++ (c ∷ rest)) (length k) ≡ some c
get_elem?-append_head [] rest c = refl
get_elem?-append_head (b ∷ k) rest c = get_elem?-append_head k rest c

at_label-append : (k rest : Name) (c : ℕ) → at_label k (k ++ (c ∷ rest)) ≡ (c == b'.')
unfolding at_label
at_label-append k rest c =
    let longer : length k < length (k ++ (c ∷ rest)) = omega (arith, length-append k (c ∷ rest)) in
    rw (get_elem?-append_head k rest c) (ground (arith, longer))

pub at_label-Cut : (k r : Name) → IsPrefix k r → at_label k r ≡ true → Cut k r
at_label-Cut k r ([], e) h = inl (e ∙ append-nil k)
at_label-Cut k r (c ∷ rest, e) h =
    let dotted : (c == b'.') ≡ true =
      sym (at_label-append k rest c) ∙ ap (at_label k) (sym e) ∙ h in
    let same : c ≡ b'.' = ground (arith, dotted) in
    inr (rest, e ∙ ap (λ (b : ℕ). k ++ (b ∷ rest)) same)

at_label_self : (k : Name) → at_label k k ≡ true
unfolding at_label
at_label_self k = ground arith

pub Cut-at_label : (k r : Name) → Cut k r → at_label k r ≡ true
Cut-at_label k r (inl e) = ap (at_label k) e ∙ at_label_self k
Cut-at_label k r (inr (rest, e)) = ap (at_label k) e ∙ at_label-append k rest b'.'

last_index-get : (c i : ℕ) (s : Name) → last_index c s ≡ some i → get_elem? s i ≡ some c
unfolding last_index
last_index-get c i [] h = cc
last_index-get c i (b ∷ s) h = elim (Option-cases (last_index c s)) [
  | inl e ↦ ground (arith, e, h)
  | inr (j, e) ↦ ground (arith, e, h, last_index-get c j s e)
]

-- What is cut off before the last dot ends where a label of the name does.
pub Cut-take : (k r : Name) (i : ℕ) → last_index b'.' r ≡ some i → Cut k (take i r) → Cut k r
Cut-take k r i h (inl e) =
    inr (drop (i + 1) r, split ∙ ap (λ (s : Name). s ++ (b'.' ∷ drop (i + 1) r)) e)
  where
    split : r ≡ take i r ++ (b'.' ∷ drop (i + 1) r)
    split =
        sym (take-append-drop i r)
        ∙ ap (λ (s : Name). take i r ++ s) (drop-get_elem? r i b'.' (last_index-get b'.' i r h))
Cut-take k r i h (inr (rest, e)) = inr (
  rest ++ drop i r,
  sym (take-append-drop i r)
      ∙ ap (λ (s : Name). s ++ drop i r) e
      ∙ append_assoc k (b'.' ∷ rest) (drop i r),
)
