-- ===== src/Patterns/Added.antt =====
-- pkg/dnscrypt/pattern_matcher.go: Add followed by Eval.
use mathlib.Core.List.{reverse, Memᴰ}
use proksitool.Base.{◌≤◌, ◌≡◌, Bool, true, List, Option, some, length}
use proksitool.Trie.Domain.{Name}
use proksitool.Patterns.{
  IsPrefix, PrefixTrie, PrefixTrieLaws, Kind, prefix, suffix, substring, glob, exact, Matcher,
  has_substring,
}
use proksitool.Patterns.Labels.{Below}

module _ {V T : Type 0} {pt : PrefixTrie V T} (laws : PrefixTrieLaws pt)
    (glob_match : Name → Name → Option Bool) where
  -- What a rule of each kind asks of a name, the matcher before it being `m`.
  abbrev pub Holds : Matcher V T → Kind → Option V → Name → Name → Type 0
  Holds m prefix v p q = IsPrefix p q
  Holds m suffix v p q =
      Below p q
      × ((j : Name) (w : Option V)
          → laws.value m.suffixes j ≡ some w
          → IsPrefix j (reverse q)
          → length j ≤ length p)
  Holds m substring v p q = has_substring p q ≡ true
  Holds m glob v p q = glob_match p q ≡ some true
  Holds m exact v p q = (q ≡ p) × ((w : V) × (v ≡ some w))
