-- ===== src/Tests/Blocking.antt =====
-- pkg/dnscrypt/plugin_block_name.go and plugin_cache.go: one rule, an alias, and a cached answer. The trie
-- and the cache hold one entry.
use proksitool.Base.{
  ℕ, ◌≡◌, refl, Bool, true, false, List, [], ◌∷◌, Option, none, some, if◌then◌else◌,
}
use proksitool.Cache.Entries.{find}
use proksitool.Trie.Domain.{Name, name_eq}
use proksitool.Patterns.{
  PrefixTrie, Matcher, eval, exact_verdict, suffix_verdict, or_else, prefix_verdict,
  substring_verdict, has_substring, starts_with,
}
use proksitool.Blocking.{
  Logged, written, State, Alias, alias_of, normalize_qname, lower_name, lower_ascii, trim_last_dot,
  all_ascii, after_log, check, check_aliases, block_response, stands,
}
use proksitool.Dnscrypt.Answers.{
  Question, Message, Limits, CachedResponse, Sieve, get_min_ttl, lowest_ttl, counted, is_empty,
  ttl_until,
}

-- A trie without keys.
abbrev empty_trie : PrefixTrie (Option ℕ) (Unit {0})
empty_trie = record { insert = λ k v t. t; longest_prefix = λ t q. none }

abbrev no_glob : Name → Name → Option Bool
no_glob p q = some false

-- The rule `*ad*`, at every hour.
abbrev ads : Matcher (Option ℕ) (Unit {0})
ads = record {
  prefixes = tt;
  suffixes = tt;
  substrings = (b'a' ∷ b'd' ∷ []) ∷ [];
  patterns = [];
  exact_vals = [];
  indirect_vals = (b'a' ∷ b'd' ∷ [], none) ∷ [];
}

abbrev query_state : State
query_state = record { q_name = b'x' ∷ b'y' ∷ []; whitelisted = false; rejected = false }

-- A CNAME to `Ads.`.
abbrev cname : Alias
cname = record { class = 1; rr_type = 5; priority = 0; target = b'A' ∷ b'd' ∷ b's' ∷ b'.' ∷ [] }

abbrev daytime : ℕ → Bool
daytime w = true

abbrev log_all : Name → Name → Logged
log_all q r = written

alias_rejected :
    (block_response empty_trie no_glob daytime log_all ads (cname ∷ []) query_state).0
    ≡ record query_state { rejected = true }
unfolding block_response check_aliases check alias_of normalize_qname name_eq all_ascii lower_name
    lower_ascii trim_last_dot stands eval exact_verdict suffix_verdict prefix_verdict
    substring_verdict has_substring starts_with or_else find after_log
alias_rejected = refl

abbrev one_entry : Sieve (Option (List ℕ × CachedResponse))
one_entry = record {
  new_sharded = λ n. some none;
  get = λ k c. elim c [
    | none ↦ (none, none)
    | some (j, v) ↦ (some (j, v), if name_eq j k then some v else none)
  ];
  insert = λ k v c. some (k, v);
}

abbrev question : ℕ → Question
question b = record { name = b ∷ []; qtype = 1; class = 1 }

abbrev stored_response : Message
stored_response = record {
  id = 7;
  response = true;
  truncated = false;
  rcode = 0;
  question = question b'a' ∷ [];
  answer = record { rr_type = 1; ttl = 300; rdata = 192 ∷ 0 ∷ 2 ∷ 1 ∷ [] } ∷ [];
  ns = [];
  extra = [];
}

-- In upper case, and with another ID.
abbrev later_query : Message
later_query = record {
  id = 8;
  response = false;
  truncated = false;
  rcode = 0;
  question = question b'A' ∷ [];
  answer = [];
  ns = [];
  extra = [];
}

abbrev limits : Limits
limits = record { min_ttl = 60; max_ttl = 3600; neg_min_ttl = 5; neg_max_ttl = 600 }

lives_300_seconds : get_min_ttl stored_response limits ≡ 300000000000
unfolding get_min_ttl lowest_ttl counted is_empty
lives_300_seconds = refl

to_the_nearest_second : (ttl_until 1499999999 ≡ 1) × (ttl_until 1500000000 ≡ 2)
unfolding ttl_until
to_the_nearest_second = (refl, refl)

abbrev stored_key : List ℕ
stored_key = 1 ∷ 0 ∷ 1 ∷ 0 ∷ 0 ∷ b'a' ∷ []

abbrev stored_entry : CachedResponse
stored_entry = record { expiration = 300000000010; msg = stored_response }
