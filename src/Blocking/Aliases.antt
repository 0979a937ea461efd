-- ===== src/Blocking/Aliases.antt =====
-- pkg/dnscrypt/plugin_block_name.go: which aliases of a response are checked.
use proksitool.Base.{
  Bool, true, false, ◌||◌, List, [], ◌∷◌, Option, none, some, if◌then◌else◌, Outcome, ok,
}
use proksitool.Trie.Domain.{Name}
use proksitool.Patterns.{PrefixTrie, Matcher, eval}
use proksitool.Blocking.{Logged, BlockError, State, lower_name, Alias, alias_of, stands}

-- The targets of the aliases of a response.
unfoldable pub targets : List Alias → List Name
targets [] = []
targets (rr ∷ l) = elim (alias_of rr) [ none ↦ targets l | some t ↦ t ∷ targets l ]

module _ {W T : Type 0} (pt : PrefixTrie (Option W) T) (glob_match : Name → Name → Option Bool)
    (time_ok : W → Bool) (log : Name → Name → Logged) (rules : Matcher (Option W) T) where
  -- Whether the rules block one of the names at this time.
  unfoldable pub any_blocked : List Name → Bool
  any_blocked [] = false
  any_blocked (t ∷ l) = stands time_ok (eval pt glob_match (lower_name t) rules) || any_blocked l

  abbrev pub outcome : Bool → State → State × Outcome BlockError Bool
  outcome blocked s = if blocked then (record s { rejected = true }, ok true) else (s, ok false)
