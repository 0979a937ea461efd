-- ===== src/Rules.antt =====
-- pkg/spoofdpi/internal/rule/set.go and query.go. The CIDR trie (`CIDRTrie`, on a package outside
-- the repository) is the parameters `S`, `cidr_add` and `cidr_search`; a nil rule is `none`.
pub mod Priority
use proksitool.Base.{
  ℕ, Bool, true, false, not, ◌&&◌, ◌==◌, List, [], ◌∷◌, Option, none, some, leb, if◌then◌else◌,
  Outcome, ok, err, panic, out_of_fuel,
}
use proksitool.Cache.Entries.{find, remove}
use proksitool.Trie.Domain.{Name, Node, name_eq, new_node}
use proksitool.Trie.Domain.Names.{add, search_domain, is_empty, TrieError}

-- `MatchAttrs`, as far as the rule set reads it.
pub record MatchAttrs : Type 0 where
  pub domains : List Name
  pub cidrs : List Name

-- `Rule`; `C` is the configuration that it carries.
pub record Rule (C : Type 0) : Type 0 where
  pub name : Name
  pub priority : ℕ
  pub block : Bool
  pub attrs : Option MatchAttrs
  pub config : C

pub data MatchType : Type 0 where
  domain_type : MatchType
  addr_type : MatchType

pub record Query : Type 0 where
  pub type : MatchType
  pub value : Name

pub data RuleError : Type 0 where
  nil_match : RuleError
  empty_match : RuleError
  conflict : Name → RuleError
  bad_pattern : Name → RuleError

-- A trie with the map of its patterns.
pub record Table (C T : Type 0) : Type 0 where
  pub trie : T
  pub keys : List (Name × Rule C)

abbrev no_patterns : List Name → Bool
no_patterns [] = true
no_patterns (p ∷ l) = false

module _ {C : Type 0} where
  unfoldable pub higher_priority : Option (Rule C) → Option (Rule C) → Option (Rule C)
  higher_priority none b = b
  higher_priority (some a) none = some a
  higher_priority (some a) (some b) =
      if leb (Rule.priority b) (Rule.priority a) then some a else some b

  unfoldable pub write_key :
      {T : Type 0}
      → (T → Name → Rule C → Option T)
      → Rule C
      → Name
      → Table C T
      → Table C T × Option RuleError
  write_key trie_add r pattern table = elim (trie_add (Table.trie table) pattern r) [
    | none ↦ (table, some (bad_pattern pattern))
    | some u ↦
        (record { trie = u; keys = (pattern, r) ∷ remove name_eq pattern (Table.keys table) }, none)
  ]

  -- One round of either loop of Add.
  unfoldable pub add_key :
      {T : Type 0}
      → (T → Name → Rule C → Option T)
      → Rule C
      → Name
      → Table C T
      → Table C T × Option RuleError
  add_key trie_add r pattern table = elim (find name_eq pattern (Table.keys table)) [
    | none ↦ write_key trie_add r pattern table
    | some existing ↦
        if Rule.priority existing == Rule.priority r
        then (table, some (conflict pattern))
        else if leb (Rule.priority r) (Rule.priority existing)
        then (table, none)
        else write_key trie_add r pattern table
  ]

  -- The loop, which an error leaves with what was added before it.
  unfoldable pub add_keys :
      {T : Type 0}
      → (T → Name → Rule C → Option T)
      → Rule C
      → List Name
      → Table C T
      → Table C T × Option RuleError
  add_keys trie_add r [] table = (table, none)
  add_keys trie_add r (pattern ∷ patterns) table =
      let (next, e) = add_key trie_add r pattern table in
      let rest = add_keys trie_add r patterns next in
      elim e [ none ↦ rest | some e ↦ (next, some e) ]

  unfoldable pub domain_add : Node (Rule C) → Name → Rule C → Option (Node (Rule C))
  domain_add t pattern r = elim (add t pattern r) [
    | ok u ↦ some u
    | err e ↦ none
    | panic ↦ none
    | out_of_fuel ↦ none
  ]

-- `RuleSet`, whose CIDR trie is an `S`.
pub record RuleSet (C S : Type 0) : Type 0 where
  pub domain : Table C (Node (Rule C))
  pub cidr : Table C S

module _ {C S : Type 0} where
  unfoldable pub new_rule_set : S → RuleSet C S
  new_rule_set empty = record {
    domain = record { trie = new_node; keys = [] };
    cidr = record { trie = empty; keys = [] };
  }

  -- Both loops; the second is not entered if the first fails.
  unfoldable pub add_patterns :
      (S → Name → Rule C → Option S)
      → Rule C
      → MatchAttrs
      → RuleSet C S
      → RuleSet C S × Option RuleError
  add_patterns cidr_add r m rs =
      let (d, e) = add_keys domain_add r (MatchAttrs.domains m) (RuleSet.domain rs) in
      let (c, f) = add_keys cidr_add r (MatchAttrs.cidrs m) (RuleSet.cidr rs) in
      elim e [
        | some e ↦ (record { domain = d; cidr = RuleSet.cidr rs }, some e)
        | none ↦ (record { domain = d; cidr = c }, f)
      ]

  unfoldable pub add_rule :
      (S → Name → Rule C → Option S) → RuleSet C S → Rule C → RuleSet C S × Option RuleError
  add_rule cidr_add rs r = elim (Rule.attrs r) [
    | none ↦ (rs, some nil_match)
    | some m ↦
        if no_patterns (MatchAttrs.domains m) && no_patterns (MatchAttrs.cidrs m)
        then (rs, some empty_match)
        else add_patterns cidr_add r m rs
  ]

  unfoldable pub answer : (S → Name → Option (Rule C)) → RuleSet C S → Query → Option (Rule C)
  answer cidr_search rs q = elim (Query.type q) [
    | domain_type ↦ search_domain (Table.trie (RuleSet.domain rs)) (Query.value q)
    | addr_type ↦ cidr_search (Table.trie (RuleSet.cidr rs)) (Query.value q)
  ]

  -- The loop of Search, from the best rule so far.
  unfoldable pub search_from :
      (S → Name → Option (Rule C)) → RuleSet C S → Option (Rule C) → List Query → Option (Rule C)
  search_from cidr_search rs best [] = best
  search_from cidr_search rs best (q ∷ queries) =
      search_from cidr_search rs (higher_priority best (answer cidr_search rs q)) queries

  -- The rule found is cloned, which makes an equal one.
  unfoldable pub search_rules :
      (S → Name → Option (Rule C)) → RuleSet C S → List Query → Option (Rule C)
  search_rules cidr_search rs queries = search_from cidr_search rs none queries
