-- ===== src/Trie/Domain/Matching/Complete.antt =====
-- pkg/spoofdpi/internal/trie/domain.go, Search: where a stored pattern matches there is an answer,
-- and a pattern without wildcards is the first choice.
use proksitool.Base.{◌≡◌, refl, true, false, List, [], ◌∷◌, some, All, arith}
use proksitool.Trie.Domain.{
  Name, Node, Children, node, nil, entry, name_eq, star, globstar, node_value, child_value, lookup,
  search, search_name, search_star,
}
use proksitool.Trie.Domain.Stored.{get, step}
use proksitool.Trie.Domain.Names.{name_eq_iff}
use proksitool.Trie.Domain.Matching.{
  IsPlain, Matches, done, exact, one, apex, any, skip, Hit, Hit-left, Hit-right, Hit-first_suffix,
  child_of_get,
}

-- A wildcard is not the other one.
globstar→not_star : (s : Name) → name_eq s globstar ≡ true → name_eq s star ≡ false
unfolding name_eq
globstar→not_star s h = ground (arith, name_eq_iff s star, name_eq_iff s globstar)

module _ {T : Type 0} where
  search_name-lookup :
      (ch : Children T) (seg : Name) (rest : List Name)
      → search_name ch seg rest ≡ search_star (lookup ch seg) rest
  unfolding search lookup
  search_name-lookup nil seg rest = refl
  search_name-lookup (entry k n ch) seg rest = ground (arith, search_name-lookup ch seg rest)

  complete :
      (n : Node T) {p segments : List Name} {u : T}
      → Matches p segments
      → get n p ≡ some u
      → Hit (search n segments)
  unfolding search get step
  complete (node ch w g o) {u = u} done stored = Hit-left o _ (u, stored)
  complete (node ch w g o) {u = u} (exact {s = s} {p = p} {r = r} (no_star, no_glob) m) stored =
      let (c, e, stored') = child_of_get (lookup ch s) p u (rw (no_star, no_glob) at stored) in
      Hit-left (search_name ch s r) _ (rw (search_name-lookup ch s r, e) (complete c m stored'))
  complete (node ch w g o) {u = u} (one {s = s} {t = t} {p = p} {r = r} at_star m) stored =
      let (c, e, stored') = child_of_get w p u (rw at_star at stored) in
      Hit-right (search_name ch t r) _ (Hit-left (search_star w r) _ (rw e (complete c m stored')))
  complete (node ch w g o) {u = u} (apex {s = s} at_star) stored =
      let (c, e, stored') = child_of_get w [] u (rw at_star at stored) in
      Hit-right o _ (Hit-left (child_value w) _ (u, rw e stored'))
  complete (node ch w g o) {u = u} (any {s = s} {r = []} at_glob) stored =
      let (c, e, stored') =
        child_of_get g [] u (rw (globstar→not_star s at_glob, at_glob) at stored) in
      Hit-right o _ (Hit-right (child_value w) _ (u, rw e stored'))
  complete (node ch w g o) {u = u} (any {s = s} {r = t ∷ l} at_glob) stored =
      let (c, e, stored') =
        child_of_get g [] u (rw (globstar→not_star s at_glob, at_glob) at stored) in
      Hit-right (search_name ch t l) _
        (Hit-right (search_star w l) _ (rw e (Hit-left (node_value c) _ (u, stored'))))
  complete (node ch w g o) {u = u} (skip {s = s} {t = t} {p = p} {r = r} {l = l} at_glob suffix m)
        stored =
      let (c, e, stored') =
        child_of_get g p u (rw (globstar→not_star s at_glob, at_glob) at stored) in
      Hit-right (search_name ch t l) _ (
        Hit-right (search_star w l) _ (
          rw e (
            Hit-right (node_value c) _
              (Hit-first_suffix (search c) suffix (complete c m stored')))))

  -- Where the trie stores a value for a pattern that matches the domain, Search finds a value.
  pub search-Hit :
      (n : Node T) (p segments : List Name) (u : T)
      → get n p ≡ some u
      → Matches p segments
      → Hit (search n segments)
  search-Hit n p segments u stored m = complete n m stored

  -- The value stored for the domain itself goes before that of any pattern with a wildcard.
  pub search-get :
      (n : Node T) (segments : List Name) (u : T)
      → All IsPlain segments
      → get n segments ≡ some u
      → search n segments ≡ some u
  unfolding search get step node_value
  search-get (node ch w g o) [] u plain stored = rw stored
  search-get (node ch w g o) (seg ∷ rest) u ((no_star, no_glob), plain) stored =
      let (c, e, stored') = child_of_get (lookup ch seg) rest u (rw (no_star, no_glob) at stored) in
      rw (search_name-lookup ch seg rest, e, search-get c rest u plain stored')
