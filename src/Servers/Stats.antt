-- ===== src/Servers/Stats.antt =====
-- pkg/dnscrypt/serversInfo.go: the counters of the servers, and the lists of registered servers.
use proksitool.Base.{
  ℕ, ◌≤◌, ◌≡◌, refl, Bool, List, [], ◌∷◌, Option, none, some, All, arith, if◌then◌else◌, if_cases,
}
use proksitool.Trie.Domain.{Name, name_eq}
use proksitool.Trie.Domain.Names.{name_eq_iff}
use proksitool.Servers.{Server, count_query, update_server_stats, Registered, register}

module _ {A : Type 0} where
  -- No more failures than queries, and not more queries than the counters may show.
  pub record Counts (s : Server A) : Type 0 where
    pub within : s.failed_queries ≤ s.total_queries
    pub small : s.total_queries ≤ 10000

  count_query-Counts :
      (success : Bool) (now : ℕ) (s : Server A) → Counts s → Counts (count_query success now s)
  unfolding count_query
  count_query-Counts success now s c = ground arith

  -- Counting a query keeps every server's failures within its queries, which the success rate
  -- subtracts, and every count of queries at 10000 at most.
  pub update_server_stats-Counts :
      (name : Name) (success : Bool) (now : ℕ) (l : List (Server A))
      → All Counts l
      → All Counts (update_server_stats name success now l)
  unfolding update_server_stats
  update_server_stats-Counts name success now [] h = tt
  update_server_stats-Counts name success now (s ∷ l) (c, h) =
      if_cases (All Counts) (name_eq s.name name) _ _ (λ _. (count_query-Counts success now s c, h))
        (λ _. (c, update_server_stats-Counts name success now l h))

module _ {S : Type 0} where
  -- The stamp registered under a name.
  unfoldable pub stamp_of : Name → List (Registered S) → Option S
  stamp_of q [] = none
  stamp_of q (r ∷ l) = if name_eq r.name q then some r.stamp else stamp_of q l

  -- Registering a name is the write of a map: the name has the new stamp afterwards, and every other
  -- name the one that it had.
  pub stamp_of-register :
      (q name : Name) (stamp : S) (l : List (Registered S))
      → stamp_of q (register name stamp l) ≡ (if name_eq name q then some stamp else stamp_of q l)
  unfolding stamp_of register
  stamp_of-register q name stamp [] = refl
  stamp_of-register q name stamp (r ∷ l) = ground (
    arith,
    stamp_of-register q name stamp l,
    name_eq_iff r.name name,
    name_eq_iff r.name q,
    name_eq_iff name q,
  )
