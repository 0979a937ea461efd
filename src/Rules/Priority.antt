-- ===== src/Rules/Priority.antt =====
-- pkg/spoofdpi/internal/rule/set.go: priorities decide, both when rules are added and when they are
-- searched.
use proksitool.Base.{
  ◌≤◌, ◌≡◌, ◌⊎◌, refl, sym, inl, inr, ◌==◌, List, [], ◌∷◌, Option, none, some, leb, arith, if_cases,
  Option-cases, Bool-cases, leb→le, All,
}
use mathlib.Core.Path.{subst}
use proksitool.Cache.Entries.{find, find-front}
use proksitool.Trie.Domain.{Name, name_eq}
use proksitool.Trie.Domain.Names.{name_eq_iff}
use proksitool.Rules.{
  Rule, Query, RuleSet, RuleError, Table, higher_priority, write_key, add_key, add_keys, answer,
  search_from,
}

-- What is said of a run that ended without an error.
abbrev pub Unless : Option RuleError → Type 0 → Type 0
Unless none P = P
Unless (some e) P = Unit

Unless-and : {P : Type 0} (Q : Type 0) (e : Option RuleError) → P → Unless e Q → Unless e (P × Q)
Unless-and Q none p q = (p, q)
Unless-and Q (some x) p q = tt

module _ {C : Type 0} where
  -- No rule, or a rule whose priority the other side reaches.
  abbrev pub Below : Option (Rule C) → Option (Rule C) → Type 0
  Below none b = Unit
  Below (some a) none = ⊥
  Below (some a) (some b) = Rule.priority a ≤ Rule.priority b

  Below-refl : (a : Option (Rule C)) → Below a a
  Below-refl none = tt
  Below-refl (some a) = omega arith

  Below-trans : (a b c : Option (Rule C)) → Below a b → Below b c → Below a c
  Below-trans none b c h k = tt
  Below-trans (some a) none c h k = absurd h
  Below-trans (some a) (some b) none h k = absurd k
  Below-trans (some a) (some b) (some c) h k = omega (arith, h, k)

  higher_priority-Below :
      (a b : Option (Rule C)) → Below a (higher_priority a b) × Below b (higher_priority a b)
  unfolding higher_priority
  higher_priority-Below none b = (tt, Below-refl b)
  higher_priority-Below (some a) none = (omega arith, tt)
  higher_priority-Below (some a) (some b) =
      elim (Bool-cases (leb (Rule.priority b) (Rule.priority a))) [
        | inl e ↦ rw e (omega arith, leb→le _ _ e)
        | inr e ↦ rw e (ground arith, omega arith)
      ]

module _ {C T : Type 0} (trie_add : T → Name → Rule C → Option T) where
  abbrev pub rule_of : Table C T → Name → Option (Rule C)
  rule_of table q = find name_eq q (Table.keys table)

  -- No pattern's rule falls, and after a round without an error the round's pattern reaches the rule.
  abbrev Rises : Rule C → Name → Name → Table C T → Table C T × Option RuleError → Type 0
  Rises r pattern q old step =
      Below (rule_of old q) (rule_of (step.0) q)
      × Unless (step.1) (Below (some r) (rule_of (step.0) pattern))

  write_key-Rises :
      (r : Rule C) (pattern q : Name) (table : Table C T)
      → Below (rule_of table pattern) (some r)
      → Rises r pattern q table (write_key trie_add r pattern table)
  unfolding write_key
  write_key-Rises r pattern q table h =
      elim (Option-cases (trie_add (Table.trie table) pattern r)) [
        | inl e ↦ rw (e, write_key) (Below-refl (rule_of table q), tt)
        | inr (u, e) ↦
            rw (e, write_key)
              (
                rw (find-front name_eq name_eq_iff pattern q r (Table.keys table))
                    (elim (Bool-cases (name_eq pattern q)) [
                      | inl y ↦ let p : pattern ≡ q = (name_eq_iff pattern q).0 y in rw (y, sym p) h
                      | inr n ↦ rw n (Below-refl (rule_of table q))
                    ]),
                rw
                    (
                      find-front name_eq name_eq_iff pattern pattern r (Table.keys table),
                      (name_eq_iff pattern pattern).1 refl,
                    )
                    (omega arith),
              )
      ]

  add_key-Rises :
      (r : Rule C) (pattern q : Name) (table : Table C T)
      → Rises r pattern q table (add_key trie_add r pattern table)
  unfolding add_key
  add_key-Rises r pattern q table = elim (Option-cases (rule_of table pattern)) [
    | inl e ↦ rw (e, add_key) (write_key-Rises r pattern q table (rw e tt))
    | inr (x, e) ↦
        rw (e, add_key)
          (if_cases (Rises r pattern q table) (Rule.priority x == Rule.priority r) _ _
            (λ h. (Below-refl (rule_of table q), tt))
            (λ h.
              if_cases (Rises r pattern q table) (leb (Rule.priority r) (Rule.priority x)) _ _
                (λ le. (Below-refl (rule_of table q), rw e (leb→le _ _ le)))
                (λ gt. write_key-Rises r pattern q table (rw e (ground (arith, gt))))))
  ]

  add_keys-next :
      (r : Rule C) (p : Name) (ps : List Name) (table : Table C T)
      → (add_key trie_add r p table).1 ≡ none
      → add_keys trie_add r (p ∷ ps) table ≡ add_keys trie_add r ps (add_key trie_add r p table).0
  unfolding add_keys
  add_keys-next r p ps table e = rw (e, add_keys) refl

  add_keys-stop :
      (r : Rule C) (p : Name) (ps : List Name) (table : Table C T) (x : RuleError)
      → (add_key trie_add r p table).1 ≡ some x
      → add_keys trie_add r (p ∷ ps) table ≡ ((add_key trie_add r p table).0, some x)
  unfolding add_keys
  add_keys-stop r p ps table x e = rw (e, add_keys) refl

  -- Adding patterns never lowers the priority of the rule recorded for a pattern, even when the
  -- addition fails half-way; if it does not fail, then every pattern added has a rule of at least
  -- the priority of the rule added.
  pub add_keys-Rises :
      (r : Rule C) (patterns : List Name) (q : Name) (table : Table C T)
      → Below (rule_of table q) (rule_of ((add_keys trie_add r patterns table).0) q)
        × Unless ((add_keys trie_add r patterns table).1) (
            All (λ p. Below (some r) (rule_of ((add_keys trie_add r patterns table).0) p)) patterns)
  unfolding add_keys
  add_keys-Rises r [] q table = (Below-refl (rule_of table q), tt)
  add_keys-Rises r (p ∷ ps) q table =
      let (up, reached) = add_key-Rises r p q table in
      let next = (add_key trie_add r p table).0 in
      elim (Option-cases ((add_key trie_add r p table).1)) [
        | inl e ↦
            let (up', all) = add_keys-Rises r ps q next in
            let (kept, _) = add_keys-Rises r ps p next in
            subst P (sym (add_keys-next r p ps table e)) (
              Below-trans _ _ _ up up',
              Unless-and _ _ (Below-trans (some r) _ _ (rw e at reached) kept) all,
            )
        | inr (x, e) ↦ subst P (sym (add_keys-stop r p ps table x e)) (up, tt)
      ]
    where
      P : Table C T × Option RuleError → Type 0
      P out =
          Below (rule_of table q) (rule_of (out.0) q)
          × Unless (out.1) (All (λ p. Below (some r) (rule_of (out.0) p)) (p ∷ ps))

-- One of the list.
abbrev pub Any : {A : Type 0} → (A → Type 0) → List A → Type 0
Any P [] = ⊥
Any P (x ∷ l) = P x ⊎ Any P l

module _ {C S : Type 0} (cidr_search : S → Name → Option (Rule C)) where
  -- The rule found has at least the priority of each query's own answer.
  pub search_from-Below :
      (rs : RuleSet C S) (best : Option (Rule C)) (queries : List Query)
      → Below best (search_from cidr_search rs best queries)
        × All
            (λ q. Below (answer cidr_search rs q) (search_from cidr_search rs best queries))
            queries
  unfolding search_from
  search_from-Below rs best [] = (Below-refl best, tt)
  search_from-Below rs best (q ∷ queries) =
      let a = answer cidr_search rs q in
      let (l, all) = search_from-Below rs (higher_priority best a) queries in
      let (x, y) = higher_priority-Below best a in
      (Below-trans _ _ _ x l, (Below-trans _ _ _ y l, all))
