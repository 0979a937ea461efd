-- ===== src/Dnscrypt/Answers/Served.antt =====
-- pkg/dnscrypt/plugin_cache.go: what a query finds after a response was stored, and for how long.
use proksitool.Base.{
  ℕ, ◌+◌, ◌-◌, ◌*◌, ◌≤◌, ◌<◌, ◌≡◌, ◌⊎◌, true, ◌==◌, List, [], ◌∷◌, map, none, some, min, max,
  if◌then◌else◌, All,
}
use proksitool.Dnscrypt.Answers.{
  ResourceRecord, Message, Limits, CachedResponse, Sieve, Found, nothing, stale, hit,
}

-- The answer to `query` that the response `r` gives at the time `now`, when it ends at `ends`.
pub record Answers (r query : Message) (ends now : ℕ) (m : Message) : Type 0 where
  pub fresh : now ≤ ends
  pub same_id : m.id ≡ query.id
  pub same_question : m.question ≡ query.question
  pub is_response : m.response ≡ true
  pub same_rcode : m.rcode ≡ r.rcode
  pub ttls : All (λ (rr : ResourceRecord). rr.ttl * 1000000000 ≤ (ends - now) + 500000000) m.answer
  pub records :
      map (λ (rr : ResourceRecord). rr.rdata) m.answer
      ≡ map (λ (rr : ResourceRecord). rr.rdata) r.answer

-- The lowest TTL of the records, but `most` at most.
abbrev pub lowest : ℕ → List ResourceRecord → ℕ
lowest most [] = most
lowest most (rr ∷ l) = min rr.ttl (lowest most l)

-- The records that give the TTL of a response: its answers or, if there are none, those of authority.
abbrev pub timed_by : List ResourceRecord → List ResourceRecord → List ResourceRecord
timed_by [] ns = ns
timed_by (rr ∷ l) ns = rr ∷ l

-- The seconds that a response lives: its lowest TTL within the limits for an answer, or for a name
-- error, and the lower limit of a negative answer for everything else.
abbrev pub lifetime : Limits → ℕ → List ResourceRecord → ℕ
lifetime limits rcode [] = limits.neg_min_ttl
lifetime limits rcode (rr ∷ l) =
    if rcode == 0
    then max (lowest limits.max_ttl (rr ∷ l)) limits.min_ttl
    else if rcode == 3
    then max (lowest limits.neg_max_ttl (rr ∷ l)) limits.neg_min_ttl
    else limits.neg_min_ttl

-- What a query may find, `evicted` being that the cache dropped the response.
abbrev pub FromStored : Type 0 → Message → Message → ℕ → ℕ → Found → Type 0
FromStored evicted r query ends now nothing = evicted
FromStored evicted r query ends now (stale m) =
    (ends < now) × Answers r query (now + 30000000000) now m
FromStored evicted r query ends now (hit m) = Answers r query ends now m

-- What the library says of a read after a write: the value, unless it was evicted.
pub record SieveLaws {C : Type 0} (sieve : Sieve C) : Type 0 where
  pub get-insert :
      (key : List ℕ) (v : CachedResponse) (c : C)
      → ((sieve.get key (sieve.insert key v c)).1 ≡ none)
        ⊎ ((sieve.get key (sieve.insert key v c)).1 ≡ some v)
