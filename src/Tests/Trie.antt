-- ===== src/Tests/Trie.antt =====
-- pkg/spoofdpi/internal/trie/domain.go on three patterns.
use proksitool.Base.{◌≡◌, refl, List, [], ◌∷◌, none, some, true}
use proksitool.Trie.Domain.{Name, Node, new_node, add_segments, search, star, globstar, name_eq}
use proksitool.Trie.Domain.Stored.{get, get-add_segments}
use proksitool.Trie.Domain.Matching.{IsPlain, exact, one, done, Hit}
use proksitool.Trie.Domain.Matching.Sound.{Found, search-Found}
use proksitool.Trie.Domain.Matching.Complete.{search-Hit, search-get}

abbrev org : Name
org = b'o' ∷ b'r' ∷ b'g' ∷ []

abbrev maps : Name
maps = b'm' ∷ []

-- "*.org" is 1, "m.org" is 2, "**.m" is 3.
root : Node (List Name)
unfolding add_segments new_node
root =
    add_segments
      (add_segments (add_segments new_node (org ∷ star ∷ []) (star ∷ [])) (org ∷ maps ∷ [])
        (maps ∷ []))
      (maps ∷ globstar ∷ []) (globstar ∷ [])

wildcard_answer : search root (org ∷ org ∷ []) ≡ some (star ∷ [])
unfolding root search name_eq
wildcard_answer = refl

apex_answer : search root (org ∷ []) ≡ some (star ∷ [])
unfolding root search name_eq
apex_answer = refl

globstar_answer : search root (maps ∷ org ∷ org ∷ []) ≡ some (globstar ∷ [])
unfolding root search name_eq
globstar_answer = refl

too_deep : search root (org ∷ org ∷ org ∷ []) ≡ none
unfolding root search name_eq
too_deep = refl

org-IsPlain : IsPlain org
unfolding name_eq
org-IsPlain = (refl, refl)

maps-IsPlain : IsPlain maps
unfolding name_eq
maps-IsPlain = (refl, refl)

star_is_star : name_eq star star ≡ true
unfolding name_eq
star_is_star = refl

stored_star : get root (org ∷ star ∷ []) ≡ some (star ∷ [])
unfolding root get name_eq
stored_star = refl

stored_maps : get root (org ∷ maps ∷ []) ≡ some (maps ∷ [])
unfolding root get name_eq
stored_maps = refl

search-Found_example : Found root (org ∷ org ∷ []) (star ∷ [])
search-Found_example =
    search-Found root (org ∷ org ∷ []) (star ∷ []) (org-IsPlain, (org-IsPlain, tt)) wildcard_answer

search-Hit_example : Hit (search root (org ∷ org ∷ []))
search-Hit_example =
    search-Hit root (org ∷ star ∷ []) (org ∷ org ∷ []) (star ∷ []) stored_star
      (exact org-IsPlain (one star_is_star done))

search-get_example : search root (org ∷ maps ∷ []) ≡ some (maps ∷ [])
search-get_example =
    search-get root (org ∷ maps ∷ []) (maps ∷ []) (org-IsPlain, (maps-IsPlain, tt)) stored_maps

get-add_segments_example : get (add_segments root (org ∷ star ∷ []) []) (org ∷ star ∷ []) ≡ some []
unfolding name_eq
get-add_segments_example = get-add_segments root (org ∷ star ∷ []) (org ∷ star ∷ []) []
