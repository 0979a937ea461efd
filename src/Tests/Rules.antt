-- ===== src/Tests/Rules.antt =====
-- pkg/spoofdpi/internal/rule: two rules of different priority for one pattern.
use proksitool.Base.{ℕ, suc, ◌≡◌, refl, false, List, [], ◌∷◌, Option, some, All}
use proksitool.Cache.Entries.{find}
use proksitool.Trie.Domain.{Name, name_eq, lookup, search, child_value, new_node}
use proksitool.Trie.Domain.Names.{split_domain, trim_dot, split_dots, search_domain}
use proksitool.Rules.{
  Rule, RuleSet, Query, Table, domain_type, addr_type, add_key, add_keys, answer, search_from,
  search_rules, higher_priority, conflict, new_rule_set,
}
use proksitool.Rules.Priority.{Below, Unless, rule_of, add_keys-Rises}

abbrev com_name : Name
com_name = b'c' ∷ b'o' ∷ b'm' ∷ []

abbrev rule : ℕ → Rule ℕ
rule p = record {
  name = [];
  priority = p;
  block = false;
  attrs = some (record { domains = com_name ∷ []; cidrs = [] });
  config = p;
}

-- A trie that keeps nothing but the number of writes.
abbrev counter : ℕ → Name → Rule ℕ → Option ℕ
counter n q r = some (suc n)

abbrev held : Table ℕ ℕ
held = record { trie = 1; keys = (com_name, rule 7) ∷ [] }

lower_is_passed_over : (add_keys counter (rule 3) (com_name ∷ []) held).0 ≡ held
unfolding add_keys add_key find name_eq
lower_is_passed_over = refl

equal_conflicts : (add_keys counter (rule 7) (com_name ∷ []) held).1 ≡ some (conflict com_name)
unfolding add_keys add_key find name_eq
equal_conflicts = refl

add_keys-Rises_example :
    Below
      (some (rule 7))
      (rule_of counter ((add_keys counter (rule 9) (com_name ∷ []) held).0) com_name)
    × Unless ((add_keys counter (rule 9) (com_name ∷ []) held).1) (
        All
          (λ p.
            Below
              (some (rule 9))
              (rule_of counter ((add_keys counter (rule 9) (com_name ∷ []) held).0) p))
          (com_name ∷ []))
unfolding find name_eq
add_keys-Rises_example = add_keys-Rises counter (rule 9) (com_name ∷ []) com_name held

-- Addresses are answered by a rule of priority 5.
abbrev any_cidr : ℕ → Name → Option (Rule ℕ)
any_cidr n q = some (rule 5)

abbrev rules : RuleSet ℕ ℕ
rules = new_rule_set 0

abbrev queries : List Query
queries =
    record { type = domain_type; value = com_name } ∷ record { type = addr_type; value = [] } ∷ []

found : search_rules any_cidr rules queries ≡ some (rule 5)
unfolding search_rules search_from answer new_rule_set higher_priority search_domain split_domain
    trim_dot split_dots search new_node child_value name_eq lookup
found = refl
